-- ===== src/ProcKey.antt =====
-- proc_key.c: the encryption key behind an entry of /proc, in an allocation that the module's global
-- `enc_key` points to.
pub mod Entry
use asynchronous_file_system.Common.{
  ℕ, ◌+◌, ◌≡◌, ◌≢◌, refl, ℤ, pos, minus, false, inr, ◌==◌, ne→==, ◌⊎◌, Option, none, some, List, [],
  ◌∷◌, ◌++◌, length, drop, if◌then◌else◌, replicate, codes, c_string, arith,
}
use native.Mathlib.Nat.{suc-add}
use asynchronous_file_system.Proc.{Proc, key_fops}
use asynchronous_file_system.Proc.Seq.{FileOperations, Seq}
use asynchronous_file_system.Kernel.{Kernel, Buffer}
use asynchronous_file_system.Kernel.Constants.{enomem, efault}
use asynchronous_file_system.Kernel.Monad.{
  done, M, ◌>>=◌, ◌>>◌, pure, call, run, ask, deref, choose, if_null, steps,
}

-- What the entry's functions call besides: cleared memory, and a copy from the task, which is none
-- if some bytes cannot be read.
module _ (K : Kernel) (kzalloc : ℕ → K.State → Option Buffer × K.State)
    (copy_from_user : ℕ → K.State → Option (List ℕ)) where
  open K use {State}

  -- What `write` returns, and the new `enc_key`. A copy that fails returns a positive number.
  unfoldable pub my_proc_write : ℕ → ℕ → M State (ℤ × ℕ)
  my_proc_write count enc_key = do
    tmp ← call (kzalloc (count + 1))
    if_null tmp (pure (minus enomem, enc_key)) λ t. do
      copied ← ask (copy_from_user count)
      if_null copied (do run (K.kfree t.addr); pure (pos efault, enc_key))
          λ bytes. do
            run (K.store t.addr (bytes ++ drop (length bytes) t.bytes))
            run (K.kfree enc_key)
            pure (pos count, t.addr)

module _ (K : Kernel) where
  open K use {State}

  -- seq_printf(m, "%s\n", enc_key); a null pointer is printed as (null).
  unfoldable pub my_proc_show : ℕ → M State (List ℕ)
  my_proc_show enc_key =
      choose (enc_key == 0) (pure (codes "(null)" ++ (10 ∷ [])))
        (do found ← ask (K.load enc_key); bytes ← deref found; pure (c_string bytes ++ (10 ∷ [])))

module _ (K : Kernel) (Q : Seq K.State ℕ) where
  -- The function prints what `enc_key` points to when a task reads.
  unfoldable pub my_proc_open : Q.File → M K.State (ℤ × Q.File)
  my_proc_open file = call (Q.single_open file (my_proc_show K))

  -- `copy_from_user` of a task's buffer.
  unfoldable pub my_fops :
      (ℕ → K.State → Option Buffer × K.State)
      → (List ℕ → ℕ → K.State → Option (List ℕ))
      → FileOperations Q.File K.State ℕ
  my_fops kzalloc copy_from_user = record {
    open_entry = my_proc_open;
    release = Q.single_release;
    read = Q.seq_read;
    llseek = Q.seq_lseek;
    write =
        λ file buffer count enc_key. my_proc_write K kzalloc (copy_from_user buffer) count enc_key;
  }

-- The result, and -1 without an entry.
unfoldable pub hello_init : {S : Type 0} → Proc S → S → ℤ × S
hello_init P s =
    let (entry, s') = P.proc_create (codes "enc_key_file") key_fops s in
    (if entry then pos 0 else minus 1, s')

unfoldable pub hello_exit : {S : Type 0} → Proc S → S → S
hello_exit P s = P.remove_proc_entry (codes "enc_key_file") s

-- The slab allocator: what is stored can be read until it is freed, and fresh memory is not in use.
pub record IsSlab (K : Kernel) (kzalloc : ℕ → K.State → Option Buffer × K.State) : Type 0 where
  pub load-store : (a : ℕ) (b : List ℕ) (s : K.State) → K.load a (K.store a b s) ≡ some b
  pub load-kfree_ne : (a x : ℕ) (s : K.State) → x ≢ a → K.load x (K.kfree a s) ≡ K.load x s
  pub kzalloc_zero :
      (n : ℕ) (s : K.State) (b : Buffer) → (kzalloc n s).0 ≡ some b → b.bytes ≡ replicate n 0
  pub kzalloc_fresh :
      (n : ℕ) (s : K.State) (b : Buffer) (a : ℕ)
      → (kzalloc n s).0 ≡ some b
      → (K.load a s ≢ none) ⊎ (a ≡ 0)
      → b.addr ≢ a

drop-replicate :
    (bytes : List ℕ) → drop (length bytes) (replicate {A = ℕ} (length bytes + 1) 0) ≡ 0 ∷ []
drop-replicate [] = refl
drop-replicate (b ∷ bytes) = rw suc-add (drop-replicate bytes)

c_string-append : (bytes : List ℕ) → c_string bytes ≡ bytes → c_string (bytes ++ (0 ∷ [])) ≡ bytes
c_string-append [] h = refl
c_string-append (b ∷ bytes) h = ground (arith, c_string-append bytes)

-- A key without a NUL, written when there is memory and the bytes can be copied while `enc_key` is
-- null or points to a live allocation, is what the entry shows from then on, and the write reports
-- all of its bytes.
pub my_proc_show-write_key :
    (K : Kernel) (kzalloc : ℕ → K.State → Option Buffer × K.State)
    (copy_from_user : ℕ → K.State → Option (List ℕ))
    → IsSlab K kzalloc
    → (bytes : List ℕ) (enc_key : ℕ) (s : K.State) (t : Buffer)
    → (kzalloc (length bytes + 1) s).0 ≡ some t
    → copy_from_user (length bytes) (kzalloc (length bytes + 1) s).1 ≡ some bytes
    → c_string bytes ≡ bytes
    → (K.load enc_key s ≢ none) ⊎ (enc_key ≡ 0)
    → (s' : K.State) × (my_proc_write K kzalloc copy_from_user (length bytes) enc_key s
        ≡ done (pos (length bytes), t.addr) s')
      × (my_proc_show K t.addr s' ≡ done (bytes ++ (10 ∷ [])) s')
unfolding my_proc_write my_proc_show if_null choose steps
my_proc_show-write_key K kzalloc copy L bytes key s t granted copied text live = (
  K.kfree key
      (K.store t.addr (bytes ++ drop (length bytes) t.bytes) (kzalloc (length bytes + 1) s).1),
  rw (granted, copied) refl,
  rw
      (
        not_null,
        L.load-kfree_ne key t.addr _ (L.kzalloc_fresh _ s t key granted live),
        L.load-store,
        L.kzalloc_zero _ s t granted,
        drop-replicate bytes,
        c_string-append bytes text,
      )
      refl,
)
  where
    not_null : (t.addr == 0) ≡ false
    not_null = ne→== t.addr 0 (L.kzalloc_fresh _ s t 0 granted (inr refl))
