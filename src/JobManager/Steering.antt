-- ===== src/JobManager/Steering.antt =====
-- The messages that wait for a running turn.
use remote_control_pjt.Prelude.{
  ℕ, suc, Option, none, some, ◌≡◌, refl, sym, ap, ◌∙◌, inl, inr, false, String, List, [], ◌∷◌, ◌++◌,
  map, subst, Distinct, contains, ◌==◌, string_eq, ==-eq, ==-refl, ==-sym, Bool-cases, arith,
}
use Prim.Native.String.{◌++◌ as concat}
use text.Mathlib.TextLemmas.{append-nil, append_assoc}
use remote_control_pjt.Result.{ok}
use remote_control_pjt.World.{World, ◌>>=◌}
use remote_control_pjt.JobManager.Turns.{
  decimal, joined_from, joint_instruction, add_steering, steering_of, drop_steering, drain_steering,
}

abbrev pub Steering : Type 0
Steering = List (String × List String)

-- The messages that `steer` has queued for one job, one after the other.
abbrev pub queue_all : String → List String → Steering → Steering
queue_all k [] ss = ss
queue_all k (m ∷ ms) ss = queue_all k ms (add_steering k m ss)

lists_assoc : (xs ys zs : List String) → (xs ++ ys) ++ zs ≡ xs ++ (ys ++ zs)
lists_assoc [] ys zs = refl
lists_assoc (x ∷ xs) ys zs = ap (λ l. x ∷ l) (lists_assoc xs ys zs)

append_nil : (xs : List String) → xs ++ [] ≡ xs
append_nil [] = refl
append_nil (x ∷ xs) = ap (λ l. x ∷ l) (append_nil xs)

steering_of-add_steering :
    (k m : String) (ss : Steering)
    → steering_of k (add_steering k m ss) ≡ steering_of k ss ++ m ∷ []
steering_of-add_steering k m [] = rw (==-refl k) refl
steering_of-add_steering k m ((j, ms) ∷ ss) = elim (Bool-cases (j == k)) [
  | inl same ↦ rw (same, same) refl
  | inr other ↦ rw (other, other) (steering_of-add_steering k m ss)
]

steering_of-queue_all :
    (k : String) (ms : List String) (ss : Steering)
    → steering_of k (queue_all k ms ss) ≡ steering_of k ss ++ ms
steering_of-queue_all k [] ss = sym (append_nil (steering_of k ss))
steering_of-queue_all k (m ∷ ms) ss =
    steering_of-queue_all k ms (add_steering k m ss)
    ∙ rw (steering_of-add_steering k m ss) (lists_assoc (steering_of k ss) (m ∷ []) ms)

-- Each job has one list of messages.
abbrev pub keys : Steering → List String
keys = map (λ (e : String × List String). e.0)

contains-add_steering :
    (k m i : String) (ss : Steering)
    → (k == i) ≡ false
    → contains (keys ss) i ≡ false
    → contains (keys (add_steering k m ss)) i ≡ false
contains-add_steering k m i [] n h = rw n refl
contains-add_steering k m i ((j, ms) ∷ ss) n h = elim (Bool-cases (j == k)) [
  | inl same ↦ rw same h
  | inr other ↦ ground (arith, contains-add_steering k m i ss n)
]

Distinct-add_steering :
    (k m : String) (ss : Steering) → Distinct (keys ss) → Distinct (keys (add_steering k m ss))
Distinct-add_steering k m [] h = (refl, tt)
Distinct-add_steering k m ((j, ms) ∷ ss) h = elim (Bool-cases (j == k)) [
  | inl same ↦ rw same h
  | inr other ↦
      rw other
        (contains-add_steering k m j ss (==-sym k j ∙ other) h.0, Distinct-add_steering k m ss h.1)
]

Distinct-queue_all :
    (k : String) (ms : List String) (ss : Steering)
    → Distinct (keys ss)
    → Distinct (keys (queue_all k ms ss))
Distinct-queue_all k [] ss h = h
Distinct-queue_all k (m ∷ ms) ss h =
    Distinct-queue_all k ms (add_steering k m ss) (Distinct-add_steering k m ss h)

absent : (k : String) (ss : Steering) → contains (keys ss) k ≡ false → steering_of k ss ≡ []
absent k [] h = refl
absent k ((j, ms) ∷ ss) h = ground (arith, absent k ss)

steering_of-drop_steering :
    (k : String) (ss : Steering) → Distinct (keys ss) → steering_of k (drop_steering k ss) ≡ []
steering_of-drop_steering k [] h = refl
steering_of-drop_steering k ((j, ms) ∷ ss) h = elim (Bool-cases (j == k)) [
  | inl same ↦
      rw same (absent k ss (subst (λ i. contains (keys ss) i ≡ false) (==-eq j k same) h.0))
  | inr other ↦ rw (other, other) (steering_of-drop_steering k ss h.1)
]

-- The messages stand in the text one behind the other.
abbrev pub InOrder : List String → String → Type 0
InOrder [] t = Unit
InOrder (m ∷ ms) t =
    (before : String) × (after : String) × (t ≡ concat before (concat m after)) × InOrder ms after

-- What a turn is told of the messages: nothing, the only one as it is, or a text that holds them all.
abbrev pub Tells : List String → Option String → Type 0
Tells [] o = o ≡ none
Tells (m ∷ []) o = o ≡ some m
Tells (m ∷ n ∷ ms) o = (t : String) × (o ≡ some t) × InOrder (m ∷ n ∷ ms) t

prefix_assoc :
    (a b m s : String) → concat (concat a (concat b m)) s ≡ concat (concat a b) (concat m s)
prefix_assoc a b m s =
    append_assoc a (concat b m) s
    ∙ ap (concat a) (append_assoc b m s)
    ∙ sym (append_assoc a b (concat m s))

-- A prefix does not move them.
behind-InOrder :
    (s : String) (ms : List String) (t : String) → InOrder ms t → InOrder ms (concat s t)
behind-InOrder s [] t h = tt
behind-InOrder s (m ∷ ms) t (before, after, e, h) =
    (concat s before, after, ap (concat s) e ∙ sym (append_assoc s before (concat m after)), h)

joined-InOrder : (i : ℕ) (ms : List String) → InOrder ms (joined_from i ms)
joined-InOrder i [] = tt
joined-InOrder i (m ∷ []) = (
  concat (decimal i) ". ",
  "",
  ap (λ t. concat (decimal i) (concat ". " t)) (sym (append-nil m))
      ∙ sym (append_assoc (decimal i) ". " (concat m "")),
  tt,
)
joined-InOrder i (m ∷ n ∷ ms) = (
  concat (decimal i) ". ",
  concat "\n" (joined_from (suc i) (n ∷ ms)),
  prefix_assoc (decimal i) ". " m (concat "\n" (joined_from (suc i) (n ∷ ms))),
  behind-InOrder "\n" (n ∷ ms) (joined_from (suc i) (n ∷ ms)) (joined-InOrder (suc i) (n ∷ ms)),
)

joint_instruction-Tells : (ms : List String) → Tells ms (joint_instruction ms)
unfolding joint_instruction
joint_instruction-Tells [] = refl
joint_instruction-Tells (m ∷ []) = refl
joint_instruction-Tells (m ∷ n ∷ ms) = (
  _,
  refl,
  behind-InOrder "Apply these user steering instructions together:\n" (m ∷ n ∷ ms)
      (joined_from 1 (m ∷ n ∷ ms)) (joined-InOrder 1 (m ∷ n ∷ ms)),
)

-- Where each job has one list of messages: what has been queued for a turn is handed over exactly
-- once. A second call has nothing to hand over. The first one returns nothing where nothing has waited, the only
-- message as it is, or one text in which all messages stand in the order of the requests, behind what
-- waited before.
pub drain_steering-all :
    (job_id : String) (ms : List String) (w : World)
    → Distinct (keys w.steering)
    → let (r, w') =
        drain_steering job_id (record w { steering = queue_all job_id ms w.steering }) in
      ((told : Option String) × (r ≡ ok told) × Tells (steering_of job_id w.steering ++ ms) told)
      × ((drain_steering job_id w').0 ≡ ok none)
unfolding ◌>>=◌ drain_steering
drain_steering-all job_id ms w h = (
  (
    joint_instruction (steering_of job_id (queue_all job_id ms w.steering)),
    refl,
    rw (steering_of-queue_all job_id ms w.steering)
        (joint_instruction-Tells (steering_of job_id w.steering ++ ms)),
  ),
  ap (λ l. ok (joint_instruction l))
      (steering_of-drop_steering job_id (queue_all job_id ms w.steering)
        (Distinct-queue_all job_id ms w.steering h)),
)
