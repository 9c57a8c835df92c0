-- ===== src/OneContext.antt =====
-- The list of contexts of kernelmode/vgpu: a process has at most one context. The writes to the
-- state.

pub mod Interrupts
pub mod Reach
use mvisor_win_vgpu_driver.Common.{
  ℕ, ◌+◌, ◌≤◌, ◌≡◌, refl, Option, some, none, List, [], ◌∷◌, arith, ◌==◌, if◌then◌else◌, find_first,
  modify_first, remove_first,
}
use mvisor_win_vgpu_driver.Driver.{Driver, Context}
use mvisor_win_vgpu_driver.Lookup.{has_context_id, get_virgl_context_from_list, modify_context}
use mvisor_win_vgpu_driver.Control.Contexts.{insert_context, remove_context}

-- How many contexts of the list have the identifier.
abbrev pub opened : ℕ → List Context → ℕ
opened q [] = 0
opened q (c ∷ cs) = (if c.id == q then 1 else 0) + opened q cs

abbrev pub OneEach : Driver → Type 0
OneEach d = (q : ℕ) → opened q d.contexts ≤ 1

-- A step that opens no context and closes none.
abbrev pub Same : Driver → Driver → Type 0
Same d d' = (q : ℕ) → opened q d'.contexts ≡ opened q d.contexts

pub OneEach-Same : (d d' : Driver) → Same d d' → OneEach d → OneEach d'
OneEach-Same d d' same one = λ q. omega (arith, same q, one q)

opened-modify :
    (q ctx : ℕ) (f : Context → Context) (cs : List Context)
    → ((c : Context) → (f c).id ≡ c.id)
    → opened q (modify_first (has_context_id ctx) f cs) ≡ opened q cs
opened-modify q ctx f [] keep = refl
opened-modify q ctx f (c ∷ cs) keep = ground (arith, keep c, opened-modify q ctx f cs keep)

opened-remove :
    (q ctx : ℕ) (cs : List Context) → opened q (remove_first (has_context_id ctx) cs) ≤ opened q cs
opened-remove q ctx [] = omega arith
opened-remove q ctx (c ∷ cs) = ground (arith, opened-remove q ctx cs)

pub opened-none :
    (q : ℕ) (cs : List Context) → find_first (has_context_id q) cs ≡ none → opened q cs ≡ 0
opened-none q [] e = refl
opened-none q (c ∷ cs) e = ground (arith, opened-none q cs)

pub none_left :
    (q : ℕ) (cs : List Context) → opened q cs ≡ 0 → find_first (has_context_id q) cs ≡ none
none_left q [] e = refl
none_left q (c ∷ cs) e = ground (arith, none_left q cs)

-- With one context at most, none is left once it is removed.
opened-removed :
    (q : ℕ) (cs : List Context)
    → opened q cs ≤ 1
    → find_first (has_context_id q) (remove_first (has_context_id q) cs) ≡ none
opened-removed q [] one = refl
opened-removed q (c ∷ cs) one = ground (arith, opened-removed q cs, none_left q cs)

pub Same-modify_context :
    (ctx : ℕ) (f : Context → Context) (d : Driver)
    → ((c : Context) → (f c).id ≡ c.id)
    → Same d (modify_context ctx f d)
Same-modify_context ctx f d keep = λ q. opened-modify q ctx f d.contexts keep

pub OneEach-remove_context : (id : ℕ) (d : Driver) → OneEach d → OneEach (remove_context id d)
OneEach-remove_context id d one = λ q. omega (arith, opened-remove q id d.contexts, one q)

pub OneEach-insert_context :
    (id : ℕ) (d : Driver)
    → get_virgl_context_from_list id d ≡ none
    → OneEach d
    → OneEach (insert_context id d)
unfolding get_virgl_context_from_list
OneEach-insert_context id d unopened one =
    λ q. ground (arith, one q, opened-none id d.contexts unopened)

pub remove_context-none :
    (id : ℕ) (d : Driver)
    → opened id d.contexts ≤ 1
    → get_virgl_context_from_list id (remove_context id d) ≡ none
unfolding get_virgl_context_from_list
remove_context-none id d one = opened-removed id d.contexts one
