-- ===== src/Dispatch/Flags.antt =====
-- Which requests do something, and what the caller hears of them.
use asynchronous_file_system.Common.{
  ℕ, ◌≡◌, ◌≢◌, refl, inl, inr, ℤ, pos, Bool, true, false, Bool-cases, ◌==◌, ==_iff, some, List,
}
use asynchronous_file_system.Param.{Param}
use asynchronous_file_system.Kernel.{Kernel}
use asynchronous_file_system.Kernel.Monad.{
  Outcome, done, oops, overrun, unfinished, bind, choose, if_null, steps,
}
use asynchronous_file_system.Cipher.{BlockCipher}
use asynchronous_file_system.Compress.{Compressor}
use asynchronous_file_system.CommandLine.Parse.{mask}
use asynchronous_file_system.Dispatch.{xclone2}

zero_after :
    {S A : Type 0} (o : Outcome S A) {r : ℤ} {s' : S}
    → bind o (λ a s. done (pos 0) s) ≡ done r s'
    → r ≡ pos 0
zero_after (done a s) h = cc
zero_after (oops s) h = cc
zero_after (overrun s) h = cc
zero_after unfinished h = cc

module _ (K : Kernel) (C : BlockCipher K.State) (Z : Compressor K.State) where
  -- A request without -m leaves the kernel as it is and returns 0: neither -c, -e nor -ce does
  -- anything, nor does a task without a request.
  pub xclone2_without_move :
      (fuel : ℕ) (param : Param) (fname : List ℕ) (enc_key : ℕ) (s : K.State) (c e : Bool)
      → param.fname ≡ some fname
      → K.xclone_flag s ≡ mask false c e
      → xclone2 K C Z fuel (some param) enc_key s ≡ done (pos 0) s
  unfolding xclone2 choose if_null steps mask
  xclone2_without_move fuel param fname key s true true p f = rw (f, p) refl
  xclone2_without_move fuel param fname key s true false p f = rw (f, p) refl
  xclone2_without_move fuel param fname key s false true p f = rw (f, p) refl
  xclone2_without_move fuel param fname key s false false p f = rw (f, p) refl

  -- Of every flag but 4081 the caller hears 0 if the call returns at all, whatever the compression
  -- or the encryption returned.
  pub xclone2_drops_errors :
      (fuel : ℕ) (param : Param) (fname : List ℕ) (enc_key : ℕ) (s : K.State) {r : ℤ} {s' : K.State}
      → param.fname ≡ some fname
      → K.xclone_flag s ≢ 4081
      → xclone2 K C Z fuel (some param) enc_key s ≡ done r s'
      → r ≡ pos 0
  unfolding xclone2 choose if_null steps
  xclone2_drops_errors fuel param fname key s p other h =
      elim (Bool-cases (K.xclone_flag s == 4081)) [
        | inl move ↦ absurd (other ((==_iff _ _).0 move))
        | inr not_move ↦ elim (Bool-cases (K.xclone_flag s == 4083)) [
          | inl zip ↦ zero_after _ (rw (not_move, zip, p) at h)
          | inr not_zip ↦ elim (Bool-cases (K.xclone_flag s == 4085)) [
            | inl enc ↦ zero_after _ (rw (not_move, not_zip, enc, p) at h)
            | inr not_enc ↦ elim (Bool-cases (K.xclone_flag s == 4087)) [
              | inl all ↦ zero_after _ (rw (not_move, not_zip, not_enc, all, p) at h)
              | inr not_all ↦
                  zero_after (done (pos 0) s) (rw (not_move, not_zip, not_enc, not_all, p) at h)
            ]
          ]
        ]
      ]
