-- ===== src/Cipher/Frame.antt =====
-- The cipher changes no file.
use asynchronous_file_system.Common.{ℕ, ◌≡◌, ◌∙◌, ap, Option, List}
use asynchronous_file_system.Kernel.{Kernel}
use asynchronous_file_system.Kernel.Monad.{Pointer, valid, null, err_ptr}
use asynchronous_file_system.Kernel.Volume.{Volume}
use asynchronous_file_system.Kernel.Contained.{Untouched}
use asynchronous_file_system.Kernel.Triple.{
  Keeps, Any, Keeps-bind, Keeps-then, Keeps-pure, Keeps-run, Keeps-call, Keeps-fault, Keeps-fits,
  Keeps-if_bad,
}
use asynchronous_file_system.Cipher.{BlockCipher, cipher_error, clone_encryption}

module _ (K : Kernel) (V : Volume K) (C : BlockCipher K.State) where
  open V use {contents}

  pub record IsQuiet : Type 0 where
    pub alloc_keeps : (s : K.State) → contents (C.alloc_blkcipher s).1 ≡ contents s
    pub setkey_keeps :
        (t : C.Tfm) (k : List ℕ) (s : K.State) → contents (C.setkey t k s) ≡ contents s
    pub set_iv_keeps :
        (t : C.Tfm) (v : List ℕ) (s : K.State) → contents (C.set_iv t v s) ≡ contents s
    pub encrypt_keeps :
        (t : C.Tfm) (out input : List ℕ) (n : ℕ) (s : K.State)
        → contents (C.encrypt t out input n s).1 ≡ contents s
    pub free_keeps : (t : C.Tfm) (s : K.State) → contents (C.free_blkcipher t s) ≡ contents s

module _ (K : Kernel) (V : Volume K) (C : BlockCipher K.State) (Q : IsQuiet K V C) (q : List ℕ)
    (c : Option (List ℕ)) where
  open V use {contents}

  abbrev I : K.State → Type 0
  I = Untouched K V q c

  same : {s t : K.State} → contents t ≡ contents s → I s → I t
  same e i = ap (λ (f : List ℕ → Option (List ℕ)). f q) e ∙ i

  Keeps-cipher_error : (dst : List ℕ) (p : Pointer C.Tfm) → Keeps I Any (cipher_error C dst p)
  unfolding cipher_error
  Keeps-cipher_error dst null = Keeps-fault
  Keeps-cipher_error dst (valid t) = Keeps-pure _ tt
  Keeps-cipher_error dst (err_ptr e) = Keeps-pure _ tt

  pub Keeps-clone_encryption :
      (key dst src : List ℕ) (n : ℕ)
      → Keeps (Untouched K V q c) Any (clone_encryption C key dst src n)
  unfolding clone_encryption
  Keeps-clone_encryption key dst src n =
      Keeps-bind (Keeps-call _ λ s i. same (Q.alloc_keeps s) i) λ tfm _.
        Keeps-if_bad tfm (Keeps-cipher_error dst) λ t _.
          Keeps-then (Keeps-run _ λ s i. same (Q.setkey_keeps t key s) i) (
            Keeps-then (Keeps-fits _) (
              Keeps-then (Keeps-run _ λ s i. same (Q.set_iv_keeps t _ s) i) (
                Keeps-bind (Keeps-call _ λ s i. same (Q.encrypt_keeps t _ _ _ s) i) λ (ret, out) _.
                  Keeps-then (Keeps-run _ λ s i. same (Q.free_keeps t s) i) (Keeps-pure _ tt))))
