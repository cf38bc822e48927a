-- ===== src/Orchestration/Hitl/Lifecycle.antt =====
-- The life of a checkpoint: what its status may become, and when one state of the store comes after
-- another.
use gomind.Base.{◌≡◌, refl, sym, subst, ◌⊎◌, inl, inr, Option, none, some}
use gomind.Orchestration.Hitl.{
  CheckpointStatus, pending, approved, rejected, edited, completed, aborted, expired,
  expired_approved, expired_rejected, expired_aborted, ExecutionCheckpoint,
}

-- A pending checkpoint is decided or expires, and one that a human let pass is completed. Nothing
-- else happens to it.
abbrev pub MayBecome : CheckpointStatus → CheckpointStatus → Type 0
MayBecome pending new = Unit
MayBecome approved new = (new ≡ approved) ⊎ (new ≡ completed)
MayBecome edited new = (new ≡ edited) ⊎ (new ≡ completed)
MayBecome rejected new = new ≡ rejected
MayBecome completed new = new ≡ completed
MayBecome aborted new = new ≡ aborted
MayBecome expired new = new ≡ expired
MayBecome expired_approved new = new ≡ expired_approved
MayBecome expired_rejected new = new ≡ expired_rejected
MayBecome expired_aborted new = new ≡ expired_aborted

pub MayBecome-refl : (a : CheckpointStatus) → MayBecome a a
MayBecome-refl pending = tt
MayBecome-refl approved = inl refl
MayBecome-refl edited = inl refl
MayBecome-refl rejected = refl
MayBecome-refl completed = refl
MayBecome-refl aborted = refl
MayBecome-refl expired = refl
MayBecome-refl expired_approved = refl
MayBecome-refl expired_rejected = refl
MayBecome-refl expired_aborted = refl

after_equal : (a b c : CheckpointStatus) → b ≡ a → MayBecome b c → MayBecome a c
after_equal a b c e h = subst (λ (x : CheckpointStatus). MayBecome x c) e h

pub MayBecome-trans : (a b c : CheckpointStatus) → MayBecome a b → MayBecome b c → MayBecome a c
MayBecome-trans pending b c h k = tt
MayBecome-trans approved b c (inl h) k = after_equal approved b c h k
MayBecome-trans approved b c (inr h) k = inr (after_equal completed b c h k)
MayBecome-trans edited b c (inl h) k = after_equal edited b c h k
MayBecome-trans edited b c (inr h) k = inr (after_equal completed b c h k)
MayBecome-trans rejected b c h k = after_equal rejected b c h k
MayBecome-trans completed b c h k = after_equal completed b c h k
MayBecome-trans aborted b c h k = after_equal aborted b c h k
MayBecome-trans expired b c h k = after_equal expired b c h k
MayBecome-trans expired_approved b c h k = after_equal expired_approved b c h k
MayBecome-trans expired_rejected b c h k = after_equal expired_rejected b c h k
MayBecome-trans expired_aborted b c h k = after_equal expired_aborted b c h k

-- What is stored under an ID, before and after. It may be forgotten, and then it stays away.
abbrev pub Moves : Option ExecutionCheckpoint → Option ExecutionCheckpoint → Type 0
Moves old none = Unit
Moves none (some new) = ⊥
Moves (some old) (some new) = MayBecome old.status new.status

pub Moves-refl : (o : Option ExecutionCheckpoint) → Moves o o
Moves-refl none = tt
Moves-refl (some cp) = MayBecome-refl cp.status

pub Moves-trans : (o p q : Option ExecutionCheckpoint) → Moves o p → Moves p q → Moves o q
Moves-trans o p none h k = tt
Moves-trans o none (some c) h k = absurd k
Moves-trans none (some b) (some c) h k = absurd h
Moves-trans (some a) (some b) (some c) h k = MayBecome-trans a.status b.status c.status h k

abbrev pub Kept : Option ExecutionCheckpoint → Option ExecutionCheckpoint → Type 0
Kept old new = (new ≡ none) ⊎ (new ≡ old)

pub Kept-Moves : (o p q : Option ExecutionCheckpoint) → Moves o p → Kept p q → Moves o q
Kept-Moves o p q h (inl gone) = subst (λ (x : Option ExecutionCheckpoint). Moves o x) (sym gone) tt
Kept-Moves o p q h (inr same) = subst (λ (x : Option ExecutionCheckpoint). Moves o x) (sym same) h
