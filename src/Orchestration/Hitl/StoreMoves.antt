-- ===== src/Orchestration/Hitl/StoreMoves.antt =====
-- The store's operations move checkpoints along their lives, whenever Redis fails or forgets.
use gomind.Base.{
  ◌≡◌, sym, ap, ◌∙◌, subst, ◌⊎◌, inl, inr, Bool, true, false, not, ◌&&◌, Option, some, String,
  if_cases,
}
use gomind.Orchestration.Hitl.{CheckpointStatus, pending, ExecutionCheckpoint, is_pending_status}
use gomind.Orchestration.Hitl.Store.{
  Client, Loaded, found, not_found, failed, index_request, indexed, saved, save_checkpoint,
  load_checkpoint, leave_pending, updated, update_checkpoint_status,
}
use gomind.Orchestration.Hitl.Lifecycle.{
  MayBecome, Moves, Moves-refl, Moves-trans, Kept, Kept-Moves,
}
use text.Mathlib.Text.{◌==◌}

module _ {S : Type 0} (client : Client S) (view : S → String → Option ExecutionCheckpoint) where
  abbrev pub KeepsAll : S → S → Type 0
  KeepsAll s t = (k : String) → Kept (view s k) (view t k)

  -- What was read is what is stored.
  abbrev pub Reads : String → S × Loaded → Type 0
  Reads id (s, found cp) = view s id ≡ some cp
  Reads id (s, not_found) = Unit
  Reads id (s, failed) = Unit

  -- What the code relies on: the keys of checkpoints change by SET alone, at the key that it names, or
  -- because they are deleted or their time to live is over. A command that fails may have worked.
  pub record IsRedis : Type 0 where
    pub get_reads : (id : String) (s : S) → Reads id (client.get id s)
    pub get_keeps : (id : String) (s : S) → KeepsAll s (client.get id s).0
    pub set_sets :
        (cp : ExecutionCheckpoint) (s : S) (k : String)
        → Kept (view s k) (view (client.set cp s).0 k)
          ⊎ ((k ≡ cp.checkpoint_id) × (view (client.set cp s).0 k ≡ some cp))
    pub set_stores :
        (cp : ExecutionCheckpoint) (s : S)
        → (client.set cp s).1 ≡ true
        → Kept (some cp) (view (client.set cp s).0 cp.checkpoint_id)
    pub del_keeps : (id : String) (s : S) → KeepsAll s (client.del id s).0
    pub add_pending_keeps : (id : String) (s : S) → KeepsAll s (client.add_pending id s).0
    pub remove_pending_keeps : (id : String) (s : S) → KeepsAll s (client.remove_pending id s)
    pub members_keeps : (s : S) → KeepsAll s (client.pending_members s).0
    pub add_to_request_keeps :
        (r : String) (id : String) (s : S) → KeepsAll s (client.add_to_request r id s)
    pub remove_from_request_keeps :
        (r : String) (id : String) (s : S) → KeepsAll s (client.remove_from_request r id s)
    pub claim_keeps : (id : String) (s : S) → KeepsAll s (client.claim id s).0
    pub release_keeps : (id : String) (s : S) → KeepsAll s (client.release id s)

  -- A checkpoint is stored under its own ID.
  abbrev pub IsKeyed : S → Type 0
  IsKeyed s = (k : String) (cp : ExecutionCheckpoint) → view s k ≡ some cp → cp.checkpoint_id ≡ k

  -- `t` comes after `s`.
  abbrev pub From : S → S → Type 0
  From s t = IsKeyed t × ((k : String) → Moves (view s k) (view t k))

  pub From-refl : (s : S) → IsKeyed s → From s s
  From-refl s keyed = (keyed, λ k. Moves-refl (view s k))

  pub From-trans : (s t u : S) → From s t → From t u → From s u
  From-trans s t u h k = (k.0, λ x. Moves-trans (view s x) (view t x) (view u x) (h.1 x) (k.1 x))

  Kept-some :
      (o p : Option ExecutionCheckpoint) (cp : ExecutionCheckpoint)
      → Kept o p
      → p ≡ some cp
      → o ≡ some cp
  Kept-some o p cp (inl gone) e = absurd (cc)
  Kept-some o p cp (inr same) e = sym same ∙ e

  pub From-keeps : (s t u : S) → From s t → KeepsAll t u → From s u
  From-keeps s t u h keeps = (
    λ k cp e. h.0 k cp (Kept-some (view t k) (view u k) cp (keeps k) e),
    λ k. Kept-Moves (view s k) (view t k) (view u k) (h.1 k) (keeps k),
  )

  moved :
      (o p : Option ExecutionCheckpoint) (old new : ExecutionCheckpoint)
      → o ≡ some old
      → p ≡ some new
      → MayBecome old.status new.status
      → Moves o p
  moved o p old new e f may = rw (e, f) may

  -- Every checkpoint under this ID is pending.
  abbrev pub PendingAt : String → S → Type 0
  PendingAt id s = (cp : ExecutionCheckpoint) → view s id ≡ some cp → cp.status ≡ pending

  pub PendingAt-keeps : (id : String) (s t : S) → PendingAt id s → KeepsAll s t → PendingAt id t
  PendingAt-keeps id s t h keeps cp e = h cp (Kept-some (view s id) (view t id) cp (keeps id) e)

  module _ (redis : IsRedis) where
    pub get-From : (id : String) (s : S) → IsKeyed s → From s (client.get id s).0
    get-From id s keyed =
        From-keeps s s (client.get id s).0 (From-refl s keyed) (redis.get_keeps id s)

    -- A checkpoint may be written over one that was there at first, and may become it.
    abbrev IsNext : S → ExecutionCheckpoint → Type 0
    IsNext s cp =
        (old : ExecutionCheckpoint) × (view s cp.checkpoint_id ≡ some old)
        × MayBecome old.status cp.status

    set-From :
        (cp : ExecutionCheckpoint) (s t : S) → IsNext s cp → From s t → From s (client.set cp t).0
    set-From cp s t (old, there, may) h =
        let u = (client.set cp t).0 in
        (
          λ k c e. elim (redis.set_sets cp t k) [
            | inl keeps ↦ h.0 k c (Kept-some (view t k) (view u k) c keeps e)
            | inr (here, written) ↦ same_id c k here (sym written ∙ e)
          ],
          λ k. elim (redis.set_sets cp t k) [
            | inl keeps ↦ Kept-Moves (view s k) (view t k) (view u k) (h.1 k) keeps
            | inr (here, written) ↦
                moved (view s k) (view u k) old cp (ap (view s) here ∙ there) written may
          ],
        )
      where
        same_id :
            (c : ExecutionCheckpoint) (k : String)
            → k ≡ cp.checkpoint_id
            → Path (Option ExecutionCheckpoint) (some cp) (some c)
            → c.checkpoint_id ≡ k
        same_id c k here e = cc

    index_request-From :
        (cp : ExecutionCheckpoint) (s t : S) → From s t → From s (index_request client cp t).0
    unfolding index_request
    index_request-From cp s t h =
        if_cases (From s) (cp.request_id == "") (λ _. h)
          (λ _.
            From-keeps s t (client.add_to_request cp.request_id cp.checkpoint_id t) h
              (redis.add_to_request_keeps cp.request_id cp.checkpoint_id t))

    indexed-From :
        (cp : ExecutionCheckpoint) (s : S) (r : S × Bool)
        → From s r.0
        → From s (indexed client cp r).0
    unfolding indexed
    indexed-From cp s (t, true) h = index_request-From cp s t h
    indexed-From cp s (t, false) h = h

    abbrev Ends : S → S × Bool → Type 0
    Ends s r = From s r.0

    saved-From :
        (cp : ExecutionCheckpoint) (s : S) (r : S × Bool)
        → From s r.0
        → From s (saved client cp r).0
    unfolding saved
    saved-From cp s (t, true) h =
        if_cases (Ends s) (is_pending_status cp.status)
          (λ _.
            let r = client.add_pending cp.checkpoint_id t in
            indexed-From cp s r (From-keeps s t r.0 h (redis.add_pending_keeps cp.checkpoint_id t)))
          (λ _. index_request-From cp s t h)
    saved-From cp s (t, false) h = h

    pub save_checkpoint-From :
        (cp : ExecutionCheckpoint) (s t : S)
        → IsNext s cp
        → From s t
        → From s (save_checkpoint client cp t).0
    unfolding save_checkpoint
    save_checkpoint-From cp s t next h = saved-From cp s (client.set cp t) (set-From cp s t next h)

    leave_pending-From :
        (id : String) (old new : CheckpointStatus) (s t : S)
        → From s t
        → From s (leave_pending client id old new t)
    unfolding leave_pending
    leave_pending-From id old new s t h =
        if_cases (From s) (is_pending_status old && not (is_pending_status new))
          (λ _. From-keeps s t (client.remove_pending id t) h (redis.remove_pending_keeps id t))
          (λ _. h)

    updated-From :
        (id : String) (status : CheckpointStatus) (r : S × Loaded)
        → IsKeyed r.0
        → PendingAt id r.0
        → Reads id r
        → From r.0 (updated client id status r).0
    unfolding updated
    updated-From id status (s, found cp) keyed waits read =
        let next : MayBecome cp.status status =
          subst (λ (x : CheckpointStatus). MayBecome x status) (sym (waits cp read)) tt in
        save_checkpoint-From (record cp { status = status }) s
          (leave_pending client id cp.status status s)
          (cp, subst (λ (k : String). view s k ≡ some cp) (sym (keyed id cp read)) read, next)
          (leave_pending-From id cp.status status s s (From-refl s keyed))
    updated-From id status (s, not_found) keyed waits read = From-refl s keyed
    updated-From id status (s, failed) keyed waits read = From-refl s keyed

    -- A pending checkpoint may get any status.
    pub update_checkpoint_status-From :
        (id : String) (status : CheckpointStatus) (s : S)
        → IsKeyed s
        → PendingAt id s
        → From s (update_checkpoint_status client id status s).0
    unfolding update_checkpoint_status load_checkpoint
    update_checkpoint_status-From id status s keyed waits =
        let r = client.get id s in
        let h = get-From id s keyed in
        From-trans s r.0 (updated client id status r).0 h (
          updated-From id status r h.0 (PendingAt-keeps id s r.0 waits (redis.get_keeps id s))
            (redis.get_reads id s))
