-- ===== src/Async/Stuck.antt =====
-- The mutex in the runs of the calls alone: `insert_into_head_job` keeps it.
use asynchronous_file_system.Common.{
  ℕ, ◌≡◌, ◌≢◌, refl, ◌⊎◌, inl, inr, ℤ, pos, minus, ltb_ℤ, add_int, true, false, ℕ_discrete, sym,
  ◌∙◌, subst, ite-yes, ite-no,
}
use asynchronous_file_system.Async.Queue.{
  wq_maxsize, Shared, Producer, start, test, enter, linked, returned, overrun, System,
}
use asynchronous_file_system.Async.Moves.{Insert, Calls, none_yet, one_more, update}

-- Before `mutex_lock`.
pub data IsWaiting : Producer → Type 0 where
  waits : {j : ℕ} → IsWaiting (start j)

-- Where the one call that has taken the mutex may stand, by the size of the queue.
data Owns (size : ℤ) : Producer → Type 0 where
  tests : {j : ℕ} → size ≡ pos 0 → Owns size (test j)
  enters : {j : ℕ} → size ≡ pos 0 → Owns size (enter j)
  counts : {j : ℕ} → size ≡ pos 0 → Owns size (linked j)
  is_done : size ≡ pos 1 → Owns size (returned (pos 0))
  is_refused : Owns size (returned (minus 1))
  is_overrun : Owns size overrun

data Turn (s : System) : Type 0 where
  is_free :
      s.shared.locked ≡ false
      → s.shared.wq_size ≡ pos 0
      → ((j : ℕ) → IsWaiting (s.producers j))
      → Turn s
  is_held :
      (i : ℕ)
      → s.shared.locked ≡ true
      → Owns (s.shared.wq_size) (s.producers i)
      → ((j : ℕ) → i ≢ j → IsWaiting (s.producers j))
      → Turn s

first_move :
    {m m' : Shared} {p p' : Producer}
    → IsWaiting p
    → Insert m p m' p'
    → m.wq_size ≡ pos 0
    → (m'.locked ≡ true) × Owns (m'.wq_size) p'
first_move waits (Insert.lock g) e = (refl, tests e)

pub room_when_empty : {n : ℤ} → ltb_ℤ n (pos wq_maxsize) ≡ false → ¬ (n ≡ pos 0)
room_when_empty g e = cc

owner_moves :
    {m m' : Shared} {p p' : Producer}
    → Owns (m.wq_size) p
    → Insert m p m' p'
    → m.locked ≡ true
    → (m'.locked ≡ true) × Owns (m'.wq_size) p'
unfolding add_int
owner_moves (tests e) (Insert.is_full g) l = absurd (room_when_empty g e)
owner_moves (tests e) (Insert.has_room g) l = (l, enters e)
owner_moves (enters e) Insert.no_memory l = (l, is_refused)
owner_moves (enters e) (Insert.link g) l = (l, counts e)
owner_moves (enters e) (Insert.link_overrun g) l = (l, is_overrun)
owner_moves (counts e) Insert.count l = (l, is_done (rw e refl))
owner_moves (is_done e) mv l = elim mv [ ]
owner_moves is_refused mv l = elim mv [ ]
owner_moves is_overrun mv l = elim mv [ ]

pub no_lock :
    {m m' : Shared} {p p' : Producer} → IsWaiting p → Insert m p m' p' → ¬ (m.locked ≡ true)
no_lock waits (Insert.lock g) l = absurd (cc)

-- The calls other than i have not moved: i alone has.
pub others_wait :
    (f : ℕ → Producer) (i : ℕ) (p : Producer)
    → ((j : ℕ) → i ≢ j → IsWaiting (f j))
    → (j : ℕ) → i ≢ j
    → IsWaiting (update f i p j)
others_wait f i p w j ne = subst IsWaiting (sym (ite-no (ℕ_discrete i j) ne p (f j))) (w j ne)

hold :
    {m : Shared} {p : Producer} (s : System) (i : ℕ)
    → ((j : ℕ) → i ≢ j → IsWaiting (s.producers j))
    → (m.locked ≡ true) × Owns (m.wq_size) p
    → Turn (record s { shared = m; producers = update s.producers i p })
hold {m} {p} s i w (l, o) =
    is_held i l (subst (Owns (m.wq_size)) (sym (ite-yes (ℕ_discrete i i) refl p (s.producers i))) o)
      (others_wait s.producers i p w)

Calls-Turn : {job : ℕ → ℕ} {s : System} → Calls job s → Turn s
Calls-Turn (none_yet n) = is_free refl refl (λ j. waits)
Calls-Turn (one_more {s = s} r i mv) = elim (Calls-Turn r) [
  | is_free l e w ↦ hold s i (λ j ne. w j) (first_move (w i) mv e)
  | is_held k l o w ↦ elim (ℕ_discrete k i) [
    | yes e ↦
        hold s i (subst (λ x. (j : ℕ) → x ≢ j → IsWaiting (s.producers j)) e w)
          (owner_moves (subst (λ x. Owns (s.shared.wq_size) (s.producers x)) e o) mv l)
    | no ne ↦ absurd (no_lock (w i ne) mv l)
  ]
]

-- With no consumer at work, of any two calls at least one is still before `mutex_lock` at every
-- moment of every interleaving: the first call that takes the mutex returns without releasing it.
pub one_call_at_most :
    {job : ℕ → ℕ} {s : System}
    → Calls job s
    → (i j : ℕ) → i ≢ j
    → IsWaiting (s.producers i) ⊎ IsWaiting (s.producers j)
one_call_at_most r i j ne = elim (Calls-Turn r) [
  | is_free l e w ↦ inl (w i)
  | is_held k l o w ↦ elim (ℕ_discrete k i) [
    | yes e ↦ inr (w j (λ d. ne (sym e ∙ d)))
    | no nk ↦ inl (w i nk)
  ]
]
