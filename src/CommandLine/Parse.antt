-- ===== src/CommandLine/Parse.antt =====
-- The mask that the options make, and the requests that reach the kernel.
use asynchronous_file_system.Common.{
  ℕ, ◌^◌, ◌<◌, ◌≡◌, refl, ℤ, pos, minus, Bool, true, false, ◌||◌, ◌==◌, if◌then◌else◌, none, some,
  List, [], ◌∷◌, length, bit_or, eqb_ℤ, arith, Bool-cases, lt→ltb, inl, inr, ==_iff, ltb, ◌&&◌,
}
use asynchronous_file_system.Param.{clone_prot_mv, clone_prot_zip, clone_prot_enc}
use asynchronous_file_system.CommandLine.{
  xclone2, xclone2async, system_call, flags, parse_options, Launch, exit_code, is_request, launch,
  with_operand, main,
}

-- The mask of a set of options.
unfoldable pub mask : Bool → Bool → Bool → ℕ
mask m c e =
    bit_or (bit_or (if m then clone_prot_mv else 0) (if c then clone_prot_zip else 0))
      (if e then clone_prot_enc else 0)

abbrev pub occurs : ℕ → List ℕ → Bool
occurs a [] = false
occurs a (b ∷ l) = b == a || occurs a l

-- Every option is one of m, c and e.
abbrev pub AreKnown : List ℕ → Type 0
AreKnown [] = Unit
AreKnown (c ∷ opts) = ((c == b'm' || (c == b'c' || c == b'e')) ≡ true) × AreKnown opts

or_mv : (m c e : Bool) → bit_or (mask m c e) clone_prot_mv ≡ mask true c e
unfolding mask
or_mv true true true = refl
or_mv true true false = refl
or_mv true false true = refl
or_mv true false false = refl
or_mv false true true = refl
or_mv false true false = refl
or_mv false false true = refl
or_mv false false false = refl

or_zip : (m c e : Bool) → bit_or (mask m c e) clone_prot_zip ≡ mask m true e
unfolding mask
or_zip true true true = refl
or_zip true true false = refl
or_zip true false true = refl
or_zip true false false = refl
or_zip false true true = refl
or_zip false true false = refl
or_zip false false true = refl
or_zip false false false = refl

or_enc : (m c e : Bool) → bit_or (mask m c e) clone_prot_enc ≡ mask m c true
unfolding mask
or_enc true true true = refl
or_enc true true false = refl
or_enc true false true = refl
or_enc true false false = refl
or_enc false true true = refl
or_enc false true false = refl
or_enc false false true = refl
or_enc false false false = refl

or_true : (b : Bool) → (b || true) ≡ true
or_true true = refl
or_true false = refl

or_false : (b : Bool) → (b || false) ≡ b
or_false true = refl
or_false false = refl

-- From any mask on, the options add theirs.
parse_options-mask :
    (opts : List ℕ) (m c e : Bool)
    → AreKnown opts
    → parse_options opts (mask m c e)
      ≡ flags (mask (m || occurs b'm' opts) (c || occurs b'c' opts) (e || occurs b'e' opts))
unfolding parse_options
parse_options-mask [] m c e known = rw (or_false m, or_false c, or_false e)
parse_options-mask (o ∷ opts) m c e known = elim (Bool-cases (o == b'm')) [
  | inl h ↦
      rw ((==_iff o b'm').0 h, or_mv m c e, or_true m) (parse_options-mask opts true c e known.1)
  | inr not_m ↦ elim (Bool-cases (o == b'c')) [
    | inl h ↦
        rw ((==_iff o b'c').0 h, or_zip m c e, or_true c) (parse_options-mask opts m true e known.1)
    | inr not_c ↦ elim (Bool-cases (o == b'e')) [
      | inl h ↦
          rw ((==_iff o b'e').0 h, or_enc m c e, or_true e)
            (parse_options-mask opts m c true known.1)
      | inr not_e ↦ absurd (ground arith)
    ]
  ]
]

-- Every mask but the empty one is one of those that `main` tests for.
is_request-mask : (m c e : Bool) → is_request (mask m c e) ≡ (m || (c || e))
unfolding mask is_request
is_request-mask true true true = refl
is_request-mask true true false = refl
is_request-mask true false true = refl
is_request-mask true false false = refl
is_request-mask false true true = refl
is_request-mask false true false = refl
is_request-mask false false true = refl
is_request-mask false false false = refl

exit_if :
    (b : Bool) (child : Launch)
    → (if b then exit_code (pos 0) (some child) else exit_code (pos 0) none)
      ≡ exit_code (pos 0) (if b then some child else none)
exit_if true child = refl
exit_if false child = refl

-- With memory, options among -m, -c and -e in any number and order, an operand of less than
-- PATH_MAX bytes and a `clone` that does not return -1, `main` exits with 0. It has started one
-- child if there was an option, with the mask of exactly the options given, as the flags of `clone`
-- and in `b1`; with no option it has started none.
pub main_requests :
    (opts name : List ℕ) (clone : Launch → ℤ)
    → AreKnown opts
    → length name < 4096
    → ((child : Launch) → eqb_ℤ (clone child) (minus 1) ≡ false)
    → let m = occurs b'm' opts in
      let c = occurs b'c' opts in
      let e = occurs b'e' opts in
      main true true true opts (some name) clone
      ≡ exit_code (pos 0) (
          if m || (c || e)
          then some (record {
            clone_flags = mask m c e;
            param = record { fname = some name; b1 = mask m c e };
          })
          else none)
unfolding main with_operand launch
main_requests opts name clone known short starts =
    rw (parsed, lt→ltb _ _ short, starts, is_request-mask) (exit_if _ _)
  where
    parsed :
        parse_options opts 0 ≡ flags (mask (occurs b'm' opts) (occurs b'c' opts) (occurs b'e' opts))
    parsed = unfold mask in parse_options-mask opts false false false known

-- Sizes up to 4096 bytes go to the synchronous call, larger ones below 2 GiB to the asynchronous one,
-- and those from 2 GiB up to 4 GiB, whose `int` is negative, to the synchronous one.
pub system_call_by_size :
    (n : ℕ)
    → n < 2 ^ 32
    → system_call (pos n) ≡ (if ltb 4096 n && ltb n (2 ^ 31) then xclone2async else xclone2)
unfolding system_call
system_call_by_size n h = ground arith
