-- ===== src/Allocation/Laws.antt =====
-- What an operator declares is read back as it was written, and what is read is well formed.
use validator_funding_pool.Base.{
  ℕ, suc, ◌≤◌, ◌≡◌, refl, ◌↔◌, Bool, true, List, [], ◌∷◌, map, arith, length, All, ==_iff,
}
use validator_funding_pool.Decimal.{Text, decimal}
use validator_funding_pool.Text.{is_hex_of_length, trim}
use validator_funding_pool.Text.Split.{
  join_comma, is_plain, trim-plain, split_comma-join_comma, decimal-is_plain, hex-is_plain,
  hex-ne-empty, join_comma-ne-empty,
}
use validator_funding_pool.Env.{
  Env, AddressTest, env_text, as_address, parse_unsigned_decimal, parse_address_list,
  parse_big_int_list,
}
use validator_funding_pool.Env.Laws.{parse_unsigned_decimal_iff, decimal-ne-empty}
use validator_funding_pool.Failure.{ok, map_ok, map_ok-All}
use validator_funding_pool.Allocation.{
  Allocation, require_funding_allocation, require_funding_window_seconds,
  min_funding_window_seconds, max_funding_window_seconds,
}

-- The window is accepted exactly when it is declared as a canonical numeral between one hour and
-- one year.
pub require_funding_window_seconds_iff :
    (env : Env) (seconds : ℕ)
    → (require_funding_window_seconds env ≡ ok seconds) ↔ (
        (env_text env "FUNDING_WINDOW_SECONDS" ≡ decimal seconds)
        × (min_funding_window_seconds ≤ seconds)
        × (seconds ≤ max_funding_window_seconds))
unfolding require_funding_window_seconds
require_funding_window_seconds_iff env seconds = (sound, complete)
  where
    declared : Text
    declared = env_text env "FUNDING_WINDOW_SECONDS"

    sound :
        require_funding_window_seconds env ≡ ok seconds
        → (declared ≡ decimal seconds)
          × (min_funding_window_seconds ≤ seconds)
          × (seconds ≤ max_funding_window_seconds)
    sound h = ground (arith, (parse_unsigned_decimal_iff declared seconds).0)

    complete :
        (declared ≡ decimal seconds)
          × (min_funding_window_seconds ≤ seconds)
          × (seconds ≤ max_funding_window_seconds)
        → require_funding_window_seconds env ≡ ok seconds
    complete (e, lo, hi) =
        rw (e, decimal-ne-empty, (parse_unsigned_decimal_iff (decimal seconds) seconds).1 refl)
          (ground arith)

numerals_are_plain : (ns : List ℕ) → All (λ u. is_plain u ≡ true) (map decimal ns)
numerals_are_plain [] = tt
numerals_are_plain (n ∷ ns) = (decimal-is_plain n, numerals_are_plain ns)

parse_numerals :
    (ns : List ℕ) → map_ok (λ entry. parse_unsigned_decimal (trim entry)) (map decimal ns) ≡ ok ns
parse_numerals [] = refl
parse_numerals (n ∷ ns) = rw (
  trim-plain (decimal n) (decimal-is_plain n),
  (parse_unsigned_decimal_iff (decimal n) n).1 refl,
  parse_numerals ns,
)

-- The targets that are written with commas are read back.
pub parse_big_int_list-join_comma :
    (n : ℕ) (ns : List ℕ) → parse_big_int_list (join_comma (map decimal (n ∷ ns))) ≡ ok (n ∷ ns)
unfolding parse_big_int_list
parse_big_int_list-join_comma n ns =
    rw (split_comma-join_comma (decimal n) (map decimal ns) (numerals_are_plain (n ∷ ns)))
      (parse_numerals (n ∷ ns))

-- An address test that accepts no other texts than a prefix `0x` and forty hex digits.
abbrev pub AcceptsHexOnly : AddressTest → Type 0
AcceptsHexOnly is_address =
    (strict : Bool) (t : Text) → is_address strict t ≡ true → is_hex_of_length 40 t ≡ true

module _ (is_address : AddressTest) (hex_only : AcceptsHexOnly is_address) where
  addresses_are_plain :
      (ps : List Text) → All (λ p. is_address true p ≡ true) ps → All (λ p. is_plain p ≡ true) ps
  addresses_are_plain [] h = tt
  addresses_are_plain (p ∷ ps) h =
      (hex-is_plain 40 p (hex_only true p h.0), addresses_are_plain ps h.1)

  parse_addresses :
      (ps : List Text)
      → All (λ p. is_address true p ≡ true) ps
      → map_ok (λ entry. as_address is_address (trim entry)) ps ≡ ok ps
  unfolding as_address
  parse_addresses [] h = refl
  parse_addresses (p ∷ ps) h =
      rw (trim-plain p (hex-is_plain 40 p (hex_only true p h.0)), h.0, parse_addresses ps h.1)

  parse_address_list-join_comma :
      (p : Text) (ps : List Text)
      → All (λ q. is_address true q ≡ true) (p ∷ ps)
      → parse_address_list is_address (join_comma (p ∷ ps)) ≡ ok (p ∷ ps)
  unfolding parse_address_list
  parse_address_list-join_comma p ps h =
      rw (split_comma-join_comma p ps (addresses_are_plain (p ∷ ps) h)) (parse_addresses (p ∷ ps) h)

  -- Addresses and as many targets, each list written with commas, are read back in their order.
  pub require_funding_allocation_roundtrip :
      (env : Env) (p : Text) (ps : List Text) (n : ℕ) (ns : List ℕ)
      → All (λ q. is_address true q ≡ true) (p ∷ ps)
      → length ps ≡ length ns
      → env_text env "PARTICIPANTS" ≡ join_comma (p ∷ ps)
      → env_text env "FUNDING_TARGETS_GWEI" ≡ join_comma (map decimal (n ∷ ns))
      → require_funding_allocation env is_address
        ≡ ok (record { participants = p ∷ ps; funding_targets_gwei = n ∷ ns })
  unfolding require_funding_allocation
  require_funding_allocation_roundtrip env p ps n ns h same ep en =
      rw
        (
          ep,
          en,
          join_comma-ne-empty p ps (hex-ne-empty 40 p (hex_only true p h.0)),
          join_comma-ne-empty (decimal n) (map decimal ns) (decimal-ne-empty n),
          parse_address_list-join_comma p ps h,
          parse_big_int_list-join_comma n ns,
          same,
        )
        (rw ((==_iff (suc (length ns)) _).1 refl))

-- What is read of an allocation that is accepted.
allocation_parts :
    (env : Env) (is_address : AddressTest) (a : Allocation)
    → require_funding_allocation env is_address ≡ ok a
    → (parse_address_list is_address (env_text env "PARTICIPANTS") ≡ ok a.participants)
      × (parse_big_int_list (env_text env "FUNDING_TARGETS_GWEI") ≡ ok a.funding_targets_gwei)
      × (length a.participants ≡ length a.funding_targets_gwei)
unfolding require_funding_allocation
allocation_parts env is_address a h = ground arith

as_address_sound :
    (is_address : AddressTest) (t p : Text)
    → as_address is_address (trim t) ≡ ok p
    → is_address true p ≡ true
unfolding as_address
as_address_sound is_address t p h = ground arith

-- An allocation that is accepted pairs each target with an address that passes the test.
pub require_funding_allocation_sound :
    (env : Env) (is_address : AddressTest) (a : Allocation)
    → require_funding_allocation env is_address ≡ ok a
    → (length a.participants ≡ length a.funding_targets_gwei)
      × All (λ p. is_address true p ≡ true) a.participants
unfolding parse_address_list
require_funding_allocation_sound env is_address a h =
    let (read, _, same) = allocation_parts env is_address a h in
    (same, map_ok-All (λ p. is_address true p ≡ true) _ (as_address_sound is_address) _ _ read)
