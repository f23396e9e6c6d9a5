-- ===== src/DhcpOptions.antt =====
-- kernel/net/dhcp_options.c: the parser of DHCP options.
-- Bytes are below 256, so the bitwise or of shifted ones is their sum. The position never passes
-- `len`, a 32-bit number, so it does not wrap. The loop has fuel, and gives none without it.
pub mod Parse
mod Tests
use armonios.Prelude.{
  ℕ, zero, suc, ◌+◌, ◌-◌, ◌*◌, Bool, true, false, ◌&&◌, List, Option, none, some, if◌then◌else◌,
  ltb, leb, ◌==◌, get_or, or_bit,
}

-- `dhcp_options_t`
pub record DhcpOptions : Type 0 where
  pub message_type : ℕ
  pub flags : ℕ
  pub subnet : ℕ
  pub gateway : ℕ
  pub dns : ℕ
  pub server_id : ℕ

unfoldable pub dhcp_has_magic_cookie : List ℕ → ℕ → Bool
dhcp_has_magic_cookie options len =
    leb 4 len
    && (get_or options 0 0 == 0x63
        && (get_or options 1 0 == 0x82
            && (get_or options 2 0 == 0x53 && get_or options 3 0 == 0x63)))

unfoldable pub dhcp_get_ipv4 : List ℕ → ℕ → ℕ
dhcp_get_ipv4 s at =
    get_or s at 0
    + 256 * get_or s (at + 1) 0
    + 65536 * get_or s (at + 2) 0
    + 16777216 * get_or s (at + 3) 0

abbrev pub dhcp_options_clear : DhcpOptions
dhcp_options_clear = record {
  message_type = 0;
  flags = 0;
  subnet = 0;
  gateway = 0;
  dns = 0;
  server_id = 0;
}

-- What the option with this code and length, whose value begins at `at`, does to the result.
unfoldable pub apply_option : ℕ → ℕ → List ℕ → ℕ → DhcpOptions → DhcpOptions
apply_option code opt_len options at out =
    if code == 53 && leb 1 opt_len
    then record out { message_type = get_or options at 0 }
    else if code == 1 && leb 4 opt_len
    then record out { subnet = dhcp_get_ipv4 options at; flags = or_bit out.flags 0 }
    else if code == 3 && leb 4 opt_len
    then record out { gateway = dhcp_get_ipv4 options at; flags = or_bit out.flags 1 }
    else if code == 6 && leb 4 opt_len
    then record out { dns = dhcp_get_ipv4 options at; flags = or_bit out.flags 2 }
    else if code == 54 && leb 4 opt_len
    then record out { server_id = dhcp_get_ipv4 options at; flags = or_bit out.flags 3 }
    else out

unfoldable pub parse_loop : ℕ → List ℕ → ℕ → ℕ → DhcpOptions → Option (Bool × DhcpOptions)
parse_loop zero options len pos out = none
parse_loop (suc fuel) options len pos out =
    let padded = parse_loop fuel options len (pos + 1) out in
    if leb len pos
    then some (true, out)
    else let code = get_or options pos 0 in
      if code == 255
      then some (true, out)
      else if code == 0
      then padded
      else if leb len (pos + 1)
      then some (false, out)
      else let opt_len = get_or options (pos + 1) 0 in
        let rest =
          parse_loop fuel options len (pos + 2 + opt_len)
            (apply_option code opt_len options (pos + 2) out) in
        if ltb (len - (pos + 2)) opt_len then some (false, out) else rest

-- Parses with pointers that are not null.
unfoldable pub dhcp_options_parse : List ℕ → ℕ → Option (Bool × DhcpOptions)
dhcp_options_parse options len =
    parse_loop (len + 1) options len (if dhcp_has_magic_cookie options len then 4 else 0)
      dhcp_options_clear
