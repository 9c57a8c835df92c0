-- ===== src/Host/Sending.antt =====
-- The commands of kernelmode/vgpu/command.c, sent to queues that accept them: what each makes of the
-- host's table.
use mvisor_win_vgpu_driver.Common.{
  ℕ, ◌+◌, ◌≤◌, ◌<◌, ◌≡◌, ◌⊎◌, ◌∙◌, ap, refl, Bool, true, false, ◌&&◌, some, List, ◌∷◌, arith, ◌==◌,
  ltb, ==→eq, if◌then◌else◌, Bool-cases, inl, inr,
}
use mvisor_win_vgpu_driver.Wire.{
  CtrlType, Command, Body, sizeof, ResourceCreateParam, BlobResourceCreateParam,
}
use mvisor_win_vgpu_driver.Driver.{Driver, Resource, VgpuBuffer, Effect, null}
use mvisor_win_vgpu_driver.Os.{Os, Descriptor}
use mvisor_win_vgpu_driver.Command.Push.{
  Queue, command_queue, control_queue, queue_index, push_queue, allocate_command_buffer, send,
  send_command, hdr,
}
use mvisor_win_vgpu_driver.Command.Send.{
  create_3d_resource, create_blob_resource, map_blob_resource, attach_resource_backing,
  create_virgl_context, destroy_virgl_context,
}
use mvisor_win_vgpu_driver.Ownership.Totals.{total, Grows}
use mvisor_win_vgpu_driver.Ownership.Commands.{Grows-send}
use mvisor_win_vgpu_driver.Host.{
  HostState, absent, bare, backed, unmapped, mapped, same, transition, named_resource, set_state,
}
use mvisor_win_vgpu_driver.Host.Invariant.{Hands, holds, seen, view, Follows, Follows-state}

-- A queue that is never full.
abbrev pub Accepting : Os → Type 0
Accepting os =
    (q : ℕ) (l : List VgpuBuffer) (ds : List Descriptor) (m n : ℕ) → os.add_buf q l ds m n ≡ 0

-- A step that puts one command on a queue and changes no resource.
pub record Sends (q : ℕ) (c : Command) (d d' : Driver) : Type 0 where
  pub logged : d'.effects ≡ Effect.push q c ∷ d.effects
  pub idrs : d'.idrs ≡ d.idrs
  pub light : (i : ℕ) (s : HostState) → total (seen i s) d' ≤ total (seen i s) d

abbrev if_both : Bool → Bool → ℕ
if_both b c = if b && c then 1 else 0

-- The count of one identifier and state, where `here` says whether it is the identifier moved.
moved_count :
    (here : Bool) (a x : ℕ) (u s s' t : HostState)
    → (here ≡ true → u ≡ s)
    → a + (if_both here (same s t) + x) ≤ (if same u t then 1 else 0)
    → a + (if_both here (same s' t) + x) ≤ (if same (if here then s' else u) t then 1 else 0)
moved_count true a x u s s' t at h = let h' = rw (at refl) at h in ground (arith, h')
moved_count false a x u s s' t at h = omega arith

kept_count :
    (here : Bool) (a a' x : ℕ) (u s t : HostState)
    → (here ≡ true → u ≡ s)
    → a' ≤ a
    → a + x ≤ (if same u t then 1 else 0)
    → a' + x ≤ (if same (if here then s else u) t then 1 else 0)
kept_count true a a' x u s t at less h = rw (← (at refl)) (omega arith)
kept_count false a a' x u s t at less h = omega arith

kept_unknown :
    (here : Bool) (u s : HostState)
    → (here ≡ true → u ≡ s)
    → u ≡ absent
    → (if here then s else u) ≡ absent
kept_unknown true u s at h = rw (← (at refl)) h
kept_unknown false u s at h = h

-- The command takes the resource in the handler's hands to another state. The step may pass it to
-- the lists as well.
pub Follows-carry :
    (q : ℕ) (c : Command) (s s' : HostState) (e e' : Hands) (d d' : Driver)
    → d'.effects ≡ Effect.push q c ∷ d.effects
    → d'.idrs ≡ d.idrs
    → ((i : ℕ) (t : HostState)
        → total (seen i t) d' + e' i t
          ≤ total (seen i t) d + holds (named_resource c.body) s' e i t)
    → transition c.hdr.ctrl_type s ≡ some s'
    → (s' ≡ absent) ⊎ (named_resource c.body < d.idrs.virgl_resource.id)
    → Follows (holds (named_resource c.body) s e) d
    → Follows e' d'
Follows-carry q c s s' e e' d d' logged idrs light step old f =
    let id = named_resource c.body in
    let at = Follows-state id s e d f in
    record {
      table = set_state id s' f.table;
      in_order = rw (logged, f.in_order, at, step) refl;
      agrees = λ i t. omega (
        arith,
        light i t,
        moved_count (i == id) (total (seen i t) d) (e i t) (f.table i) s s' t
            (λ here. rw (==→eq i id here) at) (f.agrees i t),
      );
      unknown = λ i h. let h' = rw idrs at h in ground (arith, old, f.unknown i h');
    }

pub Follows-move :
    (q : ℕ) (c : Command) (s s' : HostState) (e : Hands) (d d' : Driver)
    → Sends q c d d'
    → transition c.hdr.ctrl_type s ≡ some s'
    → (s' ≡ absent) ⊎ (named_resource c.body < d.idrs.virgl_resource.id)
    → Follows (holds (named_resource c.body) s e) d
    → Follows (holds (named_resource c.body) s' e) d'
Follows-move q c s s' e d d' sent step old f =
    Follows-carry q c s s' e _ d d' sent.logged sent.idrs (λ i t. omega (arith, sent.light i t))
      step old f

-- The command leaves the resource that it names as it is.
pub Follows-keep :
    (q : ℕ) (c : Command) (e : Hands) (d d' : Driver) (f : Follows e d)
    → Sends q c d d'
    → transition c.hdr.ctrl_type (f.table (named_resource c.body))
      ≡ some (f.table (named_resource c.body))
    → Follows e d'
Follows-keep q c e d d' f sent step =
    let id = named_resource c.body in
    record {
      table = set_state id (f.table id) f.table;
      in_order = rw (sent.logged, f.in_order, step) refl;
      agrees = λ i t.
          kept_count (i == id) (total (seen i t) d) (total (seen i t) d') (e i t) (f.table i)
            (f.table id) t (λ here. rw (==→eq i id here) refl) (sent.light i t) (f.agrees i t);
      unknown = λ i h.
          kept_unknown (i == id) (f.table i) (f.table id) (λ here. rw (==→eq i id here) refl)
            (f.unknown i (rw sent.idrs at h));
    }

module _ (os : Os) (accepts : Accepting os) where
  pub push_queue-effects :
      (w : Queue) (sg : List Descriptor) (m n : ℕ) (b : VgpuBuffer) (d : Driver)
      → (push_queue os w sg m n b d).1.effects ≡ Effect.push (queue_index w) b.command ∷ d.effects
  unfolding push_queue
  push_queue-effects command_queue sg m n b d = rw (accepts 0 d.command_queue sg m n) refl
  push_queue-effects control_queue sg m n b d = rw (accepts 1 d.control_queue sg m n) refl

  send-effects :
      (w : Queue) (command : Command) (n : ℕ) (b : VgpuBuffer) (d : Driver)
      → (send os w command n b d).1.effects ≡ Effect.push (queue_index w) b.command ∷ d.effects
  unfolding send
  send-effects w command n b d = elim (Bool-cases (ltb 0 n)) [
    | inl e ↦ rw e (push_queue-effects w _ _ _ b d)
    | inr e ↦ rw e (push_queue-effects w _ _ _ b d)
  ]

  pub send_command-Sends :
      (w : Queue) (command : Command) (n : ℕ) (sync : Bool) (d : Driver)
      → Sends (queue_index w) command d (send_command os w command n sync d)
  unfolding send_command allocate_command_buffer
  send_command-Sends w command n sync d =
      let b = allocate_command_buffer os (sizeof command.body) n sync null command in
      let g = Grows-send os w command n b d in
      record {
        logged = send-effects w command n b d;
        idrs = g.idrs;
        light = λ i s. omega (arith, g.light (seen i s));
      }

  -- A command that names no resource.
  keep_unnamed :
      (w : Queue) (command : Command) (n : ℕ) (sync : Bool) (e : Hands) (d : Driver)
      → ((s : HostState) → transition command.hdr.ctrl_type s ≡ some s)
      → Follows e d
      → Follows e (send_command os w command n sync d)
  keep_unnamed w command n sync e d step f =
      Follows-keep _ command e d _ f (send_command-Sends w command n sync d) (step _)

  pub Follows-create_virgl_context :
      (id init : ℕ) (e : Hands) (d : Driver)
      → Follows e d
      → Follows e (create_virgl_context os id init d)
  unfolding create_virgl_context
  Follows-create_virgl_context id init e d f = keep_unnamed _ _ _ _ e d (λ s. refl) f

  pub Follows-destroy_virgl_context :
      (id : ℕ) (e : Hands) (d : Driver) → Follows e d → Follows e (destroy_virgl_context os id d)
  unfolding destroy_virgl_context
  Follows-destroy_virgl_context id e d f = keep_unnamed _ _ _ _ e d (λ s. refl) f

  -- A command about a resource that the handler has in its hands.
  pub Follows-create_3d_resource :
      (ctx id : ℕ) (p : ResourceCreateParam) (e : Hands) (d : Driver)
      → id < d.idrs.virgl_resource.id
      → Follows (holds id absent e) d
      → Follows (holds id bare e) (create_3d_resource os ctx id p 0 d)
  unfolding create_3d_resource
  Follows-create_3d_resource ctx id p e d old f =
      Follows-move _ _ absent bare e d _ (send_command-Sends _ _ _ _ d) refl (inr old) f

  pub Follows-create_blob_resource :
      (ctx id : ℕ) (p : BlobResourceCreateParam) (e : Hands) (d : Driver)
      → id < d.idrs.virgl_resource.id
      → Follows (holds id absent e) d
      → Follows (holds id unmapped e) (create_blob_resource os ctx id p 0 d)
  unfolding create_blob_resource
  Follows-create_blob_resource ctx id p e d old f =
      Follows-move _ _ absent unmapped e d _ (send_command-Sends _ _ _ _ d) refl (inr old) f

  -- A blob is in the list before its mapping is asked for.
  pub Follows-map_blob_resource :
      (ctx : ℕ) (r : Resource) (e : Hands) (d d' : Driver)
      → Grows (λ v. v.of_resource r) d d'
      → d'.effects ≡ d.effects
      → view r ≡ mapped
      → r.id < d.idrs.virgl_resource.id
      → Follows (holds r.id unmapped e) d
      → Follows e (map_blob_resource os ctx r.id 0 d')
  unfolding map_blob_resource
  Follows-map_blob_resource ctx r e d d' g quiet at old f =
      let c : Command = record {
        hdr = hdr CtrlType.resource_map_blob ctx;
        body = Body.resource r.id;
      } in
      let sent = send_command-Sends _ _ _ _ d' in
      let light : (i : ℕ) (t : HostState)
          → total (seen i t) (map_blob_resource os ctx r.id 0 d') + e i t
            ≤ total (seen i t) d + holds r.id mapped e i t =
        λ i t. ground (arith, sent.light i t, g.light (seen i t), at) in
      Follows-carry 0 c unmapped mapped e e d _ (sent.logged ∙ ap (λ l. Effect.push 0 c ∷ l) quiet)
        (sent.idrs ∙ g.idrs) light refl (inr old) f

  pub Follows-attach_resource_backing :
      (ctx : ℕ) (r : Resource) (e : Hands) (d : Driver)
      → r.id < d.idrs.virgl_resource.id
      → Follows (holds r.id bare e) d
      → Follows (holds r.id backed e) (attach_resource_backing os ctx r d)
  unfolding attach_resource_backing
  Follows-attach_resource_backing ctx r e d old f =
      Follows-move _ _ bare backed e d _ (send_command-Sends _ _ _ _ d) refl (inr old) f
