-- ===== src/Async/Settles.antt =====
-- The calls alone come to an end: one of them returns.
use asynchronous_file_system.Common.{
  ℕ, suc, ◌+◌, ◌≤◌, ◌<◌, ◌≡◌, ◌≢◌, refl, ◌⊎◌, inl, inr, ℤ, pos, ltb_ℤ, true, false, ℕ_discrete, sym,
  subst, ite-yes, arith,
}
use asynchronous_file_system.Async.Queue.{
  wq_maxsize, sizeof_wq_node, Shared, Producer, test, enter, linked, returned, System,
}
use asynchronous_file_system.Async.Moves.{Insert, Calls, none_yet, one_more, update}
use asynchronous_file_system.Async.Stuck.{IsWaiting, waits, no_lock, room_when_empty, others_wait}

-- How many moves a run has.
abbrev pub call_moves : {job : ℕ → ℕ} {s : System} → Calls job s → ℕ
call_moves (none_yet n) = 0
call_moves (one_more r i mv) = suc (call_moves r)

-- Where the call that has taken the mutex may stand, and how many moves it has left at most.
data Pace (m : Shared) (n : ℕ) : Producer → Type 0 where
  tests : {j : ℕ} → m.wq_size ≡ pos 0 → sizeof_wq_node ≤ m.node_room → n ≡ 3 → Pace m n (test j)
  enters : {j : ℕ} → sizeof_wq_node ≤ m.node_room → n ≡ 2 → Pace m n (enter j)
  counts : {j : ℕ} → n ≡ 1 → Pace m n (linked j)
  is_done : {e : ℤ} → n ≡ 0 → Pace m n (returned e)

-- After a move of that call.
record Paced (n : ℕ) (m' : Shared) (p' : Producer) : Type 0 where
  left : ℕ
  fewer : left < n
  held : m'.locked ≡ true
  pace : Pace m' left p'

paces :
    {m m' : Shared} {n : ℕ} {p p' : Producer}
    → Pace m n p
    → Insert m p m' p'
    → m.locked ≡ true
    → Paced n m' p'
paces (tests e r l) (Insert.is_full g) h = absurd (room_when_empty g e)
paces (tests e r l) (Insert.has_room g) h = record {
  left = 2;
  fewer = omega arith;
  held = h;
  pace = enters r refl;
}
paces (enters r l) Insert.no_memory h = record {
  left = 0;
  fewer = omega arith;
  held = h;
  pace = is_done refl;
}
paces (enters r l) (Insert.link q) h = record {
  left = 1;
  fewer = omega arith;
  held = h;
  pace = counts refl;
}
paces (enters r l) (Insert.link_overrun q) h = absurd (omega arith)
paces (counts l) Insert.count h = record {
  left = 0;
  fewer = omega arith;
  held = h;
  pace = is_done refl;
}
paces (is_done l) mv h = elim mv [ ]

-- Nothing has happened yet, or call i has the mutex and the others are before it.
data Settling (s : System) (n : ℕ) : Type 0 where
  is_free :
      s.shared.locked ≡ false
      → s.shared.wq_size ≡ pos 0
      → sizeof_wq_node ≤ s.shared.node_room
      → ((j : ℕ) → IsWaiting (s.producers j))
      → n ≡ 4
      → Settling s n
  is_held :
      (i : ℕ)
      → s.shared.locked ≡ true
      → Pace s.shared n (s.producers i)
      → ((j : ℕ) → i ≢ j → IsWaiting (s.producers j))
      → Settling s n

first_paces :
    {m m' : Shared} {p p' : Producer}
    → IsWaiting p
    → Insert m p m' p'
    → m.wq_size ≡ pos 0
    → sizeof_wq_node ≤ m.node_room
    → Paced 4 m' p'
first_paces waits (Insert.lock g) e r = record {
  left = 3;
  fewer = omega arith;
  held = refl;
  pace = tests e r refl;
}

module _ {m : Shared} {p : Producer} (s : System) (n i : ℕ)
    (w : (j : ℕ) → i ≢ j → IsWaiting (s.producers j)) (q : Paced n m p) where
  settle : Settling (record s { shared = m; producers = update s.producers i p }) (q.left)
  settle =
      is_held i (q.held)
        (subst (Pace m (q.left)) (sym (ite-yes (ℕ_discrete i i) refl p (s.producers i))) (q.pace))
        (others_wait s.producers i p w)

Insert-node_room : {m m' : Shared} {p p' : Producer} → Insert m p m' p' → m'.node_room ≡ m.node_room
Insert-node_room Insert.count = refl
Insert-node_room mv = refl

Calls-Settling :
    {job : ℕ → ℕ} {s : System} (r : Calls job s)
    → sizeof_wq_node ≤ s.shared.node_room
    → (n : ℕ) × (call_moves r + n ≤ 4) × Settling s n
Calls-Settling (none_yet n) room = (4, omega arith, is_free refl refl room (λ j. waits) refl)
Calls-Settling (one_more {s = s} r i mv) room =
    let (n, few, t) = Calls-Settling r (rw (Insert-node_room mv) at room) in
    elim t [
      | is_free l e q w all ↦
          let next = first_paces (w i) mv e q in
          (next.left, omega (arith, next.fewer), settle s 4 i (λ j ne. w j) next)
      | is_held k l pace w ↦ elim (ℕ_discrete k i) [
        | yes e ↦
            let next = paces (subst (λ x. Pace s.shared n (s.producers x)) e pace) mv l in
            (
              next.left,
              omega (arith, next.fewer),
              settle s n i (subst (λ x. (j : ℕ) → x ≢ j → IsWaiting (s.producers j)) e w) next,
            )
        | no ne ↦ absurd (no_lock (w i ne) mv l)
      ]
    ]

-- A move of a call from where it stands.
abbrev pub CanMove : Shared → Producer → Type 0
CanMove m p = (m' : Shared) × (p' : Producer) × Insert m p m' p'

abbrev pub HasReturned : Producer → Type 0
HasReturned p = (e : ℤ) × (p ≡ returned e)

first-CanMove : {m : Shared} {p : Producer} → IsWaiting p → m.locked ≡ false → CanMove m p
first-CanMove waits e = (_, _, Insert.lock e)

room_for : (n : ℤ) → n ≡ pos 0 → ltb_ℤ n (pos wq_maxsize) ≡ true
room_for n e = rw e

can_move : {m : Shared} {n : ℕ} {p : Producer} → Pace m n p → HasReturned p ⊎ CanMove m p
can_move {m} (tests e r l) = inr (_, _, Insert.has_room (room_for (m.wq_size) e))
can_move (enters r l) = inr (_, _, Insert.no_memory)
can_move (counts l) = inr (_, _, Insert.count)
can_move (is_done l) = inl (_, refl)

-- With no consumer at work, and an allocator that hands out room for a whole node where eight bytes are
-- asked for, in every interleaving of the calls there are at most four moves, and at every moment a call
-- has returned or some call can move. So after four moves at most a call returns.
pub one_call_returns :
    {job : ℕ → ℕ} {s : System} (r : Calls job s)
    → sizeof_wq_node ≤ s.shared.node_room
    → (call_moves r ≤ 4)
      × ((i : ℕ) × (HasReturned (s.producers i) ⊎ CanMove s.shared (s.producers i)))
one_call_returns {s} r room =
    let (n, few, t) = Calls-Settling r room in
    (
      omega arith,
      elim t [
        | is_free l e q w all ↦ (0, inr (first-CanMove (w 0) l))
        | is_held i l pace w ↦ (i, can_move pace)
      ],
    )
