-- ===== src/Dispatch/Frame.antt =====
-- What a call of `xclone2` can change at most.
use asynchronous_file_system.Common.{
  ℕ, ◌≡◌, ◌≢◌, refl, ap, ◌∙◌, Option, none, some, List, [], ◌∷◌, take,
}
use asynchronous_file_system.Param.{Param}
use asynchronous_file_system.Kernel.{Kernel}
use asynchronous_file_system.Kernel.Volume.{Volume}
use asynchronous_file_system.Kernel.Contained.{IsContained, Untouched}
use asynchronous_file_system.Kernel.Triple.{
  Ends, Keeps, Any, Keeps-bind, Keeps-pure, Keeps-ask, Keeps-choose, Keeps-deref_eq, Keeps-if_null,
}
use asynchronous_file_system.Cipher.{BlockCipher}
use asynchronous_file_system.Cipher.Frame as Enc
use asynchronous_file_system.Compress.{Compressor}
use asynchronous_file_system.Compress.Frame as Zip
use asynchronous_file_system.Encrypt.Frame.{IsUsr, Keeps-processencryption}
use asynchronous_file_system.EncryptCompress.{temp_name}
use asynchronous_file_system.EncryptCompress.Frame.{Keeps-process_enc_comp}
use asynchronous_file_system.Unlink.Frame.{IsTrash, Keeps-processunlink}
use asynchronous_file_system.Dispatch.{check_arg, xclone2}

-- A name in the trash folder begins with /usr.
IsTrash-IsUsr : (q : List ℕ) → IsTrash q → IsUsr q
IsTrash-IsUsr q e = take_take q ∙ ap (take 4) e
  where
    take_take : (p : List ℕ) → take 4 p ≡ take 4 (take 14 p)
    take_take [] = refl
    take_take (a ∷ []) = refl
    take_take (a ∷ b ∷ []) = refl
    take_take (a ∷ b ∷ c ∷ []) = refl
    take_take (a ∷ b ∷ c ∷ d ∷ p) = refl

module _ (K : Kernel) (V : Volume K) (W : IsContained K V) (C : BlockCipher K.State)
    (Q : Enc.IsQuiet K V C) (Z : Compressor K.State) (R : Zip.IsQuiet K V Z) where
  Keeps-check_arg :
      (q : List ℕ) (c : Option (List ℕ)) (arg : Option Param)
      → Keeps (Untouched K V q c) Any (check_arg K C Z arg)
  Keeps-check_arg q c none = Keeps-pure _ tt
  Keeps-check_arg q c (some param) =
      Keeps-if_null param.fname (Keeps-pure _ tt) λ _. Keeps-pure _ tt

  Keeps-xclone2 :
      (fuel : ℕ) (arg : Option Param) (enc_key : ℕ) (q : List ℕ) (c : Option (List ℕ))
      → ((param : Param) → arg ≡ some param → param.fname ≢ some q)
      → q ≢ temp_name
      → ¬ IsUsr q
      → Keeps (Untouched K V q c) Any (xclone2 K C Z fuel arg enc_key)
  unfolding xclone2
  Keeps-xclone2 fuel arg key q c other not_temp outside = Keeps-bind (Keeps-ask _) λ flag _.
      Keeps-choose _
        (Keeps-bind (Keeps-deref_eq arg) λ param e.
          Keeps-processunlink K V W q c fuel param (other param e)
            (λ t. outside (IsTrash-IsUsr q t)))
        (Keeps-choose _
          (Keeps-bind (Keeps-deref_eq arg) λ param e.
            Keeps-bind
              (Zip.Keeps-processcompress K V W Z R q c fuel param.fname (other param e) outside)
              λ _ _. Keeps-check_arg q c arg)
          (Keeps-choose _
            (Keeps-bind (Keeps-deref_eq arg) λ param e.
              Keeps-bind
                (Keeps-processencryption K V W q c C Q fuel param.fname key (other param e) outside)
                λ _ _. Keeps-check_arg q c arg)
            (Keeps-choose _
              (Keeps-bind (Keeps-deref_eq arg) λ param e.
                Keeps-bind
                  (Keeps-process_enc_comp K V W C Q Z R q c fuel param.fname key (other param e)
                    not_temp outside)
                  λ _ _. Keeps-check_arg q c arg)
              (Keeps-check_arg q c arg))))

  -- In every kernel whose calls change no file but their own, whatever fails: however `xclone2`
  -- ends, also by a fault, a file that is not the one it was asked for, not temp.txt, and whose path does
  -- not begin with the four characters /usr, as /usrA/f does, holds what it held.
  pub xclone2_frame :
      (fuel : ℕ) (arg : Option Param) (enc_key : ℕ) (q : List ℕ) (s : K.State)
      → ((param : Param) → arg ≡ some param → param.fname ≢ some q)
      → q ≢ temp_name
      → ¬ IsUsr q
      → Ends (λ s'. V.contents s' q ≡ V.contents s q) Any (xclone2 K C Z fuel arg enc_key s)
  xclone2_frame fuel arg key q s other not_temp outside =
      (Keeps-xclone2 fuel arg key q (V.contents s q) other not_temp outside).ends s refl
