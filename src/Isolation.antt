-- ===== src/Isolation.antt =====
-- What a request of one process may change of the context of another, in kernelmode/vgpu.

pub mod Dispatch
pub mod Refusal
pub mod NoContext
pub mod Outline
pub mod Histories
use mvisor_win_vgpu_driver.Common.{
  ℕ, ◌≡◌, ◌≢◌, refl, sym, ◌∙◌, ap, Bool, Option, some, none, List, [], ◌∷◌, arith, ◌==◌, find_first,
  modify_first, remove_first,
}
use mvisor_win_vgpu_driver.Driver.{Driver, Context}
use mvisor_win_vgpu_driver.Os.{Os}
use mvisor_win_vgpu_driver.Lookup.{
  has_context_id, get_virgl_context_from_list, found_context-id, modify_context,
}
use mvisor_win_vgpu_driver.Control.Contexts.{
  insert_context, remove_context, ctl_destroy_virgl_context,
}
use mvisor_win_vgpu_driver.Interrupt.{serve}
use mvisor_win_vgpu_driver.Device.{process_notify}
use mvisor_win_vgpu_driver.Ioctl.Alone.{Alone, destroy-Alone}
use mvisor_win_vgpu_driver.Ioctl.Kept.{process_notify-kept}
use mvisor_win_vgpu_driver.Ioctl.OfContexts.{OfContexts}

-- A step that leaves a context as it is.
abbrev pub Spares : ℕ → Driver → Driver → Type 0
Spares q d d' = get_virgl_context_from_list q d' ≡ get_virgl_context_from_list q d

find-modify :
    (q ctx : ℕ) (f : Context → Context) (cs : List Context)
    → ctx ≢ q
    → ((c : Context) → (f c).id ≡ c.id)
    → find_first (has_context_id q) (modify_first (has_context_id ctx) f cs)
      ≡ find_first (has_context_id q) cs
find-modify q ctx f [] other keep = refl
find-modify q ctx f (c ∷ cs) other keep = ground (arith, keep c, find-modify q ctx f cs other keep)

find-remove :
    (q ctx : ℕ) (cs : List Context)
    → ctx ≢ q
    → find_first (has_context_id q) (remove_first (has_context_id ctx) cs)
      ≡ find_first (has_context_id q) cs
find-remove q ctx [] other = refl
find-remove q ctx (c ∷ cs) other = ground (arith, find-remove q ctx cs other)

Spares-modify_context :
    (q ctx : ℕ) (f : Context → Context) (d : Driver)
    → ctx ≢ q
    → ((c : Context) → (f c).id ≡ c.id)
    → Spares q d (modify_context ctx f d)
unfolding get_virgl_context_from_list
Spares-modify_context q ctx f d other keep = find-modify q ctx f d.contexts other keep

Spares-insert_context : (q id : ℕ) (d : Driver) → id ≢ q → Spares q d (insert_context id d)
unfolding get_virgl_context_from_list
Spares-insert_context q id d other = ground arith

Spares-remove_context : (q id : ℕ) (d : Driver) → id ≢ q → Spares q d (remove_context id d)
unfolding get_virgl_context_from_list
Spares-remove_context q id d other = find-remove q id d.contexts other

pub Spares-Alone : (q : ℕ) (d d' : Driver) → Alone d d' → Spares q d d'
unfolding get_virgl_context_from_list
Spares-Alone q d d' same = rw same refl

Spares-destroy :
    (os : Os) (q : ℕ) (c : Context) (d : Driver)
    → c.id ≢ q
    → Spares q d (ctl_destroy_virgl_context os c d).1
Spares-destroy os q c d other =
    Spares-Alone q (remove_context c.id d) _ (destroy-Alone os c d)
    ∙ Spares-remove_context q c.id d other

-- A view of the context of the process `q`.
module _ {V : Type 0} (look : Option Context → V) (q : ℕ) (v : V) where
  abbrev pub Looks : Driver → Type 0
  Looks d = look (get_virgl_context_from_list q d) ≡ v

  pub Looks-Spares : (d d' : Driver) → Spares q d d' → Looks d → Looks d'
  Looks-Spares d d' h e = ap look h ∙ e

  module _ (os : Os) (other : os.process_id ≢ q)
      (waited : (d : Driver) → Looks d → Looks (serve os os.interrupts d)) where
    -- A request of another process writes to no part of it.
    pub Looks-OfContexts : OfContexts os Looks
    Looks-OfContexts = record {
      elsewhere = λ d d' same e. Looks-Spares d d' (Spares-Alone q d d' same) e;
      edited =
          λ f d keep e. Looks-Spares d _ (Spares-modify_context q os.process_id f d other keep) e;
      inserted = λ d free e. Looks-Spares d _ (Spares-insert_context q os.process_id d other) e;
      removed = λ d e. Looks-Spares d _ (Spares-remove_context q os.process_id d other) e;
      waited = waited;
    }

  pub process_notify-Looks :
      (os : Os) (id : ℕ) (create : Bool) (d : Driver)
      → id ≢ q
      → Looks d
      → Looks (process_notify os id create d)
  process_notify-Looks os id create d other e =
      process_notify-kept os Looks id
        (λ c x at e.
          Looks-Spares x _
            (Spares-destroy os q c x (λ k. other (sym (found_context-id id x c at) ∙ k))) e)
        create d e
