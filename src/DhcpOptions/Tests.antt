-- ===== src/DhcpOptions/Tests.antt =====
-- kernel/net/dhcp_options.c on a message type option, an end option and bytes behind the buffer.
use armonios.Prelude.{ℕ, ◌≡◌, ◌≢◌, refl, zero, suc, List, [], ◌∷◌, none, arith}
use armonios.DhcpOptions.{dhcp_options_parse}
use armonios.DhcpOptions.Parse.{Agree, dhcp_options_parse_lem}

abbrev offer : List ℕ
offer = 53 ∷ 1 ∷ 2 ∷ 255 ∷ []

abbrev offer_and_more : List ℕ
offer_and_more = 53 ∷ 1 ∷ 2 ∷ 255 ∷ 9 ∷ []

agree : Agree 4 offer offer_and_more
agree zero h = refl
agree (suc zero) h = refl
agree (suc (suc zero)) h = refl
agree (suc (suc (suc zero))) h = refl
agree (suc (suc (suc (suc k)))) h = absurd (omega arith)

dhcp_options_parse_lem_example :
    (dhcp_options_parse offer 4 ≢ none)
    × (dhcp_options_parse offer 4 ≡ dhcp_options_parse offer_and_more 4)
dhcp_options_parse_lem_example = dhcp_options_parse_lem offer offer_and_more 4 agree
