-- ===== src/Async/Moves.antt =====
-- One step of a call in `insert_into_head_job`, and the interleavings of the calls.
use asynchronous_file_system.Common.{
  ℕ, ◌<◌, ◌≤◌, ◌≡◌, pos, negsuc, minus, ltb_ℤ, add_int, true, false, [], ◌∷◌, ◌++◌, ite, ℕ_discrete,
}
use asynchronous_file_system.Async.Queue.{
  wq_maxsize, max_producers, sizeof_wq_node, Shared, Producer, start, test, full, throttle,
  admitted, waiting, woken, enter, linked, returned, overrun, System, initialise_wq,
}

-- `insert_into_head_job`. The mutex is not taken again after a wait, and not released at the end.
pub data Insert (m : Shared) : Producer → Shared → Producer → Type 0 where
  lock : {j : ℕ} → m.locked ≡ false → Insert m (start j) (record m { locked = true }) (test j)
  is_full : {j : ℕ} → ltb_ℤ m.wq_size (pos wq_maxsize) ≡ false → Insert m (test j) m (full j)
  has_room : {j : ℕ} → ltb_ℤ m.wq_size (pos wq_maxsize) ≡ true → Insert m (test j) m (enter j)
  unlock : {j : ℕ} → Insert m (full j) (record m { locked = false }) (throttle j)
  admit :
      {j : ℕ}
      → ltb_ℤ (pos max_producers) m.t_producers ≡ false
      → Insert m (throttle j) m (admitted j)
  refuse :
      {j : ℕ}
      → ltb_ℤ (pos max_producers) m.t_producers ≡ true
      → Insert m (throttle j) m (returned (minus 1))
  register :
      {j : ℕ}
      → Insert m (admitted j) (record m { t_producers = add_int m.t_producers (pos 1) }) (waiting j)
  -- the condition has come true, or a signal has come: the result is not looked at
  wake : {j : ℕ} → Insert m (waiting j) m (woken j)
  unregister :
      {j : ℕ}
      → Insert m (woken j) (record m { t_producers = add_int m.t_producers (negsuc 0) }) (test j)
  no_memory : {j : ℕ} → Insert m (enter j) m (returned (minus 1))
  -- the node takes more bytes than it was allocated: `list_add_tail` writes its `list_head`
  link :
      {j : ℕ}
      → sizeof_wq_node ≤ m.node_room
      → Insert m (enter j) (record m { jobs = m.jobs ++ (j ∷ []) }) (linked j)
  link_overrun : {j : ℕ} → m.node_room < sizeof_wq_node → Insert m (enter j) m overrun
  count :
      {j : ℕ}
      → Insert m (linked j) (record m { wq_size = add_int m.wq_size (pos 1) }) (returned (pos 0))

abbrev pub update {ℓ} : {A : Type ℓ} → (ℕ → A) → ℕ → A → ℕ → A
update f i a j = ite (ℕ_discrete i j) a (f j)

-- The runs of the calls, in any order of their moves.
pub data Calls (job : ℕ → ℕ) : System → Type 0 where
  none_yet : (node_room : ℕ) → Calls job (initialise_wq node_room job)
  one_more :
      {s : System} {m : Shared} {p : Producer}
      → Calls job s
      → (i : ℕ) → Insert s.shared (s.producers i) m p
      → Calls job (record s { shared = m; producers = update s.producers i p })
