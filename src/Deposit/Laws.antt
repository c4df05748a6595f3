-- ===== src/Deposit/Laws.antt =====
-- Which entries of the deposit-data file are found, and which keys pass.
use validator_funding_pool.Base.{
  ℕ, ◌≡◌, ◌≢◌, ◌⊎◌, inl, inr, true, List, [], ◌∷◌, ◌++◌, Option, none, some, arith, ◌==◌, ==_iff,
  All, Bool-cases,
}
use mathlib.Core.Path.{subst}
use validator_funding_pool.Decimal.{Text, is_empty}
use validator_funding_pool.Text.{same_text, same_hex, to_lower_case, is_hex_of_length}
use validator_funding_pool.Text.Laws.{same_text_iff}
use validator_funding_pool.Env.{
  Env, env_text, as_hex, normalize_hex_length, parse_deposit_amount_gwei,
}
use validator_funding_pool.Env.Laws.{is_empty_iff}
use validator_funding_pool.Failure.{
  ok, guard, ◌>>=◌, >>=-eq-ok, expected_pubkey_differs, expected_pubkey_malformed,
}
use validator_funding_pool.Deposit.{
  DepositData, find_amount, found_entries, predeposit_and_top_up, assert_committed_pubkey,
  parse_expected_pubkey, compare_pubkey, assert_expected_pubkey,
  assert_committed_pubkey_if_readable,
}

-- The first entry with an amount; the amounts of those before it are read, and are others.
pub record FirstOf (gwei : ℕ) (ds : List DepositData) (d : DepositData) : Type 0 where
  pub before : List DepositData
  pub after : List DepositData
  pub place : ds ≡ before ++ (d ∷ after)
  pub amount : parse_deposit_amount_gwei d.amount ≡ ok gwei
  pub others : All (λ x. (n : ℕ) × (parse_deposit_amount_gwei x.amount ≡ ok n) × (n ≢ gwei)) before

find_amount_sound :
    (gwei : ℕ) (ds : List DepositData) (d : DepositData)
    → find_amount gwei ds ≡ ok (some d)
    → FirstOf gwei ds d
unfolding find_amount
find_amount_sound gwei [] d h = cc
find_amount_sound gwei (x ∷ ds) d h =
    let (n, read, h') = >>=-eq-ok (parse_deposit_amount_gwei x.amount) _ h in
    elim (Bool-cases (n == gwei)) [
      | inl e ↦
          let here : ok (some x) ≡ ok (some d) = rw e at h' in
          let same : x ≡ d = cc in
          let equal : n ≡ gwei = (==_iff n gwei).0 e in
          record {
            before = [];
            after = ds;
            place = cc;
            amount = subst (λ y. parse_deposit_amount_gwei y.amount ≡ ok gwei) same (cc);
            others = tt;
          }
      | inr e ↦
          let rest = find_amount_sound gwei ds d (rw e at h') in
          record {
            before = x ∷ rest.before;
            after = rest.after;
            place = cc (rest.place);
            amount = rest.amount;
            others = ((n, read, ground arith), rest.others);
          }
    ]

-- The entries that are read are the first one of the predeposit's amount and the first one of the
-- top-up's.
pub predeposit_and_top_up_sound :
    (ds : List DepositData) (predeposit top_up : DepositData)
    → predeposit_and_top_up ds ≡ ok (predeposit, top_up)
    → FirstOf 1_000_000_000 ds predeposit × FirstOf 31_000_000_000 ds top_up
unfolding predeposit_and_top_up
predeposit_and_top_up_sound ds predeposit top_up h =
    let (p, first, h') = >>=-eq-ok (find_amount 1_000_000_000 ds) _ h in
    let (t, second, h'') = >>=-eq-ok (find_amount 31_000_000_000 ds) _ h' in
    entries p t first second h''
  where
    entries :
        (p t : Option DepositData)
        → find_amount 1_000_000_000 ds ≡ ok p
        → find_amount 31_000_000_000 ds ≡ ok t
        → found_entries p t ≡ ok (predeposit, top_up)
        → FirstOf 1_000_000_000 ds predeposit × FirstOf 31_000_000_000 ds top_up
    entries (some p) (some t) first second h = (
      find_amount_sound 1_000_000_000 ds predeposit (cc),
      find_amount_sound 31_000_000_000 ds top_up (cc),
    )
    entries none t first second h = cc
    entries (some p) none first second h = cc

-- The key that `commit-predeposit` goes on with is the file's, in lower case; and `EXPECTED_PUBKEY`,
-- if it is declared, is that key.
pub assert_expected_pubkey_sound :
    (env : Env) (local pubkey : Text)
    → assert_expected_pubkey env local ≡ ok pubkey
    → ((t : Text) × (normalize_hex_length local 48 ≡ ok t) × (pubkey ≡ to_lower_case t))
      × ((env_text env "EXPECTED_PUBKEY" ≡ [])
          ⊎ (to_lower_case (as_hex (env_text env "EXPECTED_PUBKEY")) ≡ pubkey))
unfolding assert_expected_pubkey parse_expected_pubkey
assert_expected_pubkey_sound env local pubkey h =
    let (t, read, h') = >>=-eq-ok (normalize_hex_length local 48) _ h in
    elim (Bool-cases (is_empty (env_text env "EXPECTED_PUBKEY"))) [
      | inl e ↦
          let same : ok (to_lower_case t) ≡ ok pubkey = rw e at h' in
          ((t, read, cc), inl ((is_empty_iff (env_text env "EXPECTED_PUBKEY")).0 e))
      | inr e ↦ compared t read (rw e at h')
    ]
  where
    compared :
        (t : Text)
        → normalize_hex_length local 48 ≡ ok t
        → (parse_expected_pubkey (env_text env "EXPECTED_PUBKEY")
            >>= compare_pubkey (to_lower_case t))
          ≡ ok pubkey
        → ((t : Text) × (normalize_hex_length local 48 ≡ ok t) × (pubkey ≡ to_lower_case t))
          × ((env_text env "EXPECTED_PUBKEY" ≡ [])
              ⊎ (to_lower_case (as_hex (env_text env "EXPECTED_PUBKEY")) ≡ pubkey))
    compared t read h =
        let (u, parsed, h') =
          >>=-eq-ok (parse_expected_pubkey (env_text env "EXPECTED_PUBKEY")) _ h in
        let (_, equal, h'') =
          >>=-eq-ok (guard (same_text (to_lower_case t) u) expected_pubkey_differs) _ h' in
        let same : to_lower_case t ≡ u = (same_text_iff (to_lower_case t) u).0 (ground arith) in
        let declared : to_lower_case (as_hex (env_text env "EXPECTED_PUBKEY")) ≡ u =
          expected_sound (env_text env "EXPECTED_PUBKEY") u parsed in
        ((t, read, cc), inr (cc))
      where
        expected_sound :
            (s u : Text) → parse_expected_pubkey s ≡ ok u → to_lower_case (as_hex s) ≡ u
        expected_sound s u h =
            let (_, _, h') =
              >>=-eq-ok (guard (is_hex_of_length 96 (as_hex s)) expected_pubkey_malformed) _ h in
            cc

committed_sound :
    (committed t : Text) (d : DepositData)
    → assert_committed_pubkey committed d ≡ ok t
    → (normalize_hex_length d.pubkey 48 ≡ ok t) × (same_hex committed t ≡ true)
unfolding assert_committed_pubkey
committed_sound committed t d h = ground arith

-- Where the file has both entries, the key that the exit preflight is about is the one that the file's
-- first entry of the predeposit's amount holds, and the pool's commitment is the same key.
pub assert_committed_pubkey_if_readable_sound :
    (ds : List DepositData) (predeposit top_up : DepositData) (committed t : Text)
    → predeposit_and_top_up ds ≡ ok (predeposit, top_up)
    → assert_committed_pubkey_if_readable (ok ds) committed ≡ ok t
    → FirstOf 1_000_000_000 ds predeposit
      × (normalize_hex_length predeposit.pubkey 48 ≡ ok t)
      × (same_hex committed t ≡ true)
unfolding assert_committed_pubkey_if_readable
assert_committed_pubkey_if_readable_sound ds predeposit top_up committed t entries h =
    let (read, same) =
      committed_sound committed t predeposit
        (rw (entries, assert_committed_pubkey_if_readable) at h) in
    ((predeposit_and_top_up_sound ds predeposit top_up entries).0, read, same)
