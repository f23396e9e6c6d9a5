-- ===== src/DhcpOptions/Parse.antt =====
-- The loop of kernel/net/dhcp_options.c ends, and its result depends on the bytes of the buffer alone.
use armonios.Prelude.{
  ℕ, zero, suc, ◌+◌, ◌-◌, ◌≤◌, ◌<◌, ◌≡◌, ◌≢◌, refl, ap, ◌∙◌, inl, inr, ◌||◌, List, none, arith,
  if◌then◌else◌, ltb, leb, get_or, Bool-cases,
}
use armonios.DhcpOptions.{
  DhcpOptions, dhcp_has_magic_cookie, dhcp_get_ipv4, dhcp_options_clear, apply_option, parse_loop,
  dhcp_options_parse,
}

-- The first `len` bytes are the same.
abbrev pub Agree : ℕ → List ℕ → List ℕ → Type 0
Agree len a b = (k : ℕ) → k < len → get_or a k 0 ≡ get_or b k 0

parse_loop-ends :
    (fuel : ℕ) (a : List ℕ) (len pos : ℕ) (out : DhcpOptions)
    → pos ≤ len
    → len < pos + fuel
    → parse_loop fuel a len pos out ≢ none
unfolding parse_loop
parse_loop-ends zero a len pos out inside h e = absurd (omega arith)
parse_loop-ends (suc fuel) a len pos out inside h e =
    let n = get_or a (pos + 1) 0 in
    elim (Bool-cases (leb len pos || (leb len (pos + 1) || ltb (len - (pos + 2)) n))) [
      | inl short ↦ elim (Bool-cases (leb len pos)) [
        | inl ended ↦ absurd (ground arith)
        | inr more ↦
            let padded = parse_loop-ends fuel a len (pos + 1) out (ground arith) (omega arith) in
            absurd (ground (arith, padded))
      ]
      | inr whole ↦
          let padded = parse_loop-ends fuel a len (pos + 1) out (ground arith) (omega arith) in
          let rest =
            parse_loop-ends fuel a len (pos + 2 + n)
              (apply_option (get_or a pos 0) n a (pos + 2) out) (ground arith) (omega arith) in
          absurd (ground (arith, padded, rest))
    ]

ipv4_same :
    (a b : List ℕ) (len at : ℕ)
    → Agree len a b
    → at + 4 ≤ len
    → dhcp_get_ipv4 a at ≡ dhcp_get_ipv4 b at
unfolding dhcp_get_ipv4
ipv4_same a b len at same h = omega (
  arith,
  same at (omega arith),
  same (at + 1) (omega arith),
  same (at + 2) (omega arith),
  same (at + 3) (omega arith),
)

apply_option_same :
    (a b : List ℕ) (len code opt_len at : ℕ) (out : DhcpOptions)
    → Agree len a b
    → at + opt_len ≤ len
    → apply_option code opt_len a at out ≡ apply_option code opt_len b at out
unfolding apply_option
apply_option_same a b len code opt_len at out same h = elim (Bool-cases (leb 4 opt_len)) [
  | inl four ↦ rw (same at (ground arith), ipv4_same a b len at same (ground arith)) refl
  | inr less ↦ elim (Bool-cases (leb 1 opt_len)) [
    | inl one ↦ rw (less, same at (ground arith)) (ground arith)
    | inr nothing ↦ rw (less, nothing) (ground arith)
  ]
]

parse_loop_same :
    (fuel : ℕ) (a b : List ℕ) (len pos : ℕ) (out : DhcpOptions)
    → Agree len a b
    → parse_loop fuel a len pos out ≡ parse_loop fuel b len pos out
unfolding parse_loop
parse_loop_same zero a b len pos out same = refl
parse_loop_same (suc fuel) a b len pos out same = elim (Bool-cases (leb len pos)) [
  | inl ended ↦ rw ended refl
  | inr more ↦
      let padded = parse_loop_same fuel a b len (pos + 1) out same in
      elim (Bool-cases (leb len (pos + 1))) [
        | inl cut ↦ rw (more, same pos (ground arith), cut, padded) refl
        | inr long ↦
            let c = get_or b pos 0 in
            let n = get_or b (pos + 1) 0 in
            elim (Bool-cases (ltb (len - (pos + 2)) n)) [
              | inl truncated ↦
                  rw
                    (
                      more,
                      same pos (ground arith),
                      long,
                      same (pos + 1) (ground arith),
                      truncated,
                      padded,
                    )
                    refl
              | inr whole ↦
                  let rest =
                    parse_loop_same fuel a b len (pos + 2 + n) (apply_option c n b (pos + 2) out)
                      same in
                  let applied = apply_option_same a b len c n (pos + 2) out same (ground arith) in
                  rw
                    (
                      more,
                      same pos (ground arith),
                      long,
                      same (pos + 1) (ground arith),
                      whole,
                      padded,
                      applied,
                      rest,
                    )
                    refl
            ]
      ]
]

cookie_same :
    (a b : List ℕ) (len : ℕ)
    → Agree len a b
    → dhcp_has_magic_cookie a len ≡ dhcp_has_magic_cookie b len
unfolding dhcp_has_magic_cookie
cookie_same a b len same = elim (Bool-cases (leb 4 len)) [
  | inl four ↦
      rw
        (same 0 (ground arith), same 1 (ground arith), same 2 (ground arith), same 3 (ground arith))
        refl
  | inr short ↦ rw short refl
]

-- Parsing ends with a result, success or failure, and the result depends on the first `len` bytes
-- alone: it is the same for two buffers that agree on these.
pub dhcp_options_parse_lem :
    (a b : List ℕ) (len : ℕ)
    → Agree len a b
    → (dhcp_options_parse a len ≢ none) × (dhcp_options_parse a len ≡ dhcp_options_parse b len)
unfolding dhcp_options_parse dhcp_has_magic_cookie
dhcp_options_parse_lem a b len same =
    let start = if dhcp_has_magic_cookie a len then 4 else 0 in
    (
      parse_loop-ends (len + 1) a len start dhcp_options_clear (ground arith) (ground arith),
      parse_loop_same (len + 1) a b len start dhcp_options_clear same
          ∙ ap (λ c. parse_loop (len + 1) b len (if c then 4 else 0) dhcp_options_clear)
              (cookie_same a b len same),
    )
