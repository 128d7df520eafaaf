-- ===== src/Cli/Clock.antt =====
-- The time of day that a message is shown with.
use raft_ebpf.Prelude.{
  ℕ, ◌+◌, ◌*◌, ◌%◌, ◌<◌, len, ◌+++◌, ltb, if◌then◌else◌, Bool-cases, inl, inr, ◌≡◌, refl, ◌∙◌,
  arith,
}
use text.Mathlib.TextPositions.{len-append}
use raft_ebpf.Ipc.Requests.{Texts}
use raft_ebpf.Cli.Messages.{two_digits, hours, minutes, seconds, chrono_lite}

-- the decimal text of a number below 100 has one digit or two
abbrev pub HasDigits : Texts → Type 0
HasDigits t = (n : ℕ) → n < 100 → len (t.decimal n) ≡ (if ltb n 10 then 1 else 2)

module _ ⦃t : Texts⦄ where
  len-two_digits : (n : ℕ) → HasDigits t → n < 100 → len (two_digits n) ≡ 2
  len-two_digits n digits small = elim (Bool-cases (ltb n 10)) [
    | inl one ↦
        let short : len (t.decimal n) ≡ 1 = digits n small ∙ rw one refl in
        rw one (omega (arith, short, len-append "0" (t.decimal n)))
    | inr two ↦ rw two (digits n small ∙ rw two refl)
  ]

  -- The time of day is the remainder of the seconds by the day, as hours below 24, minutes below 60
  -- and seconds below 60, and its text has eight characters.
  pub chrono_lite-len :
      (unix_secs : ℕ)
      → HasDigits t
      → (hours unix_secs < 24)
        × (minutes unix_secs < 60)
        × (seconds unix_secs < 60)
        × (hours unix_secs * 3600 + minutes unix_secs * 60 + seconds unix_secs ≡ unix_secs % 86400)
        × (len (chrono_lite unix_secs) ≡ 8)
  chrono_lite-len unix_secs digits =
      let h = two_digits (hours unix_secs) in
      let m = two_digits (minutes unix_secs) in
      let s = two_digits (seconds unix_secs) in
      (
        omega arith,
        omega arith,
        omega arith,
        omega arith,
        omega (
          arith,
          len-two_digits (hours unix_secs) digits (omega arith),
          len-two_digits (minutes unix_secs) digits (omega arith),
          len-two_digits (seconds unix_secs) digits (omega arith),
          len-append h (":" +++ m +++ ":" +++ s),
          len-append ":" (m +++ ":" +++ s),
          len-append m (":" +++ s),
          len-append ":" s,
        ),
      )
