-- ===== src/Signer/Selection.antt =====
-- The wallet that signs is the one that the environment names, and the guard behind the selection
-- never fires.
use validator_funding_pool.Base.{
  ◌≡◌, refl, ◌↔◌, inl, inr, true, false, List, [], ◌∷◌, ◌++◌, Option, none, some, arith, All,
  Bool-cases,
}
use mathlib.Core.Path.{subst}
use validator_funding_pool.Decimal.{Text, is_empty}
use validator_funding_pool.Text.{same_hex}
use validator_funding_pool.Env.{Env, AddressTest, env_text}
use validator_funding_pool.Failure.{ok, >>=-eq-ok}
use validator_funding_pool.Signer.{
  find_wallet, known_wallet, ledger_address, resolve_signing_wallet, assert_expected_signer,
  assert_ledger_signer, assert_active_signer,
}

-- The wallets before the chosen one have other addresses.
pub record FirstWith (ledger : Text) (wallets : List Text) (w : Text) : Type 0 where
  pub before : List Text
  pub after : List Text
  pub place : wallets ≡ before ++ (w ∷ after)
  pub matches : same_hex w ledger ≡ true
  pub others : All (λ x. same_hex x ledger ≡ false) before

find_wallet_sound :
    (ledger : Text) (ws : List Text) (w : Text)
    → find_wallet ledger ws ≡ some w
    → FirstWith ledger ws w
find_wallet_sound ledger [] w h = cc
find_wallet_sound ledger (v ∷ ws) w h = elim (Bool-cases (same_hex v ledger)) [
  | inl e ↦
      let same : v ≡ w = ground arith in
      record {
        before = [];
        after = ws;
        place = cc;
        matches = subst (λ u. same_hex u ledger ≡ true) same e;
        others = tt;
      }
  | inr e ↦
      let rest = find_wallet_sound ledger ws w (rw e at h) in
      record {
        before = v ∷ rest.before;
        after = rest.after;
        place = cc (rest.place);
        matches = rest.matches;
        others = (e, rest.others);
      }
]

find_wallet_complete :
    (ledger : Text) (before : List Text) (w : Text) (after : List Text)
    → same_hex w ledger ≡ true
    → All (λ x. same_hex x ledger ≡ false) before
    → find_wallet ledger (before ++ (w ∷ after)) ≡ some w
find_wallet_complete ledger [] w after m others = rw m
find_wallet_complete ledger (x ∷ before) w after m (other, others) =
    rw other (find_wallet_complete ledger before w after m others)

ledger_address_iff :
    (env : Env) (a : Text)
    → (ledger_address env ≡ ok a) ↔ ((env_text env "LEDGER_ADDRESS" ≡ a) × (is_empty a ≡ false))
ledger_address_iff env a = (sound, λ (e, full). rw (e, full))
  where
    sound : ledger_address env ≡ ok a → (env_text env "LEDGER_ADDRESS" ≡ a) × (is_empty a ≡ false)
    sound h = ground arith

-- On a Ledger connection, the wallet that is chosen is the first of the reported ones whose address
-- is `LEDGER_ADDRESS`, which is set; and the choice fails if there is none.
pub resolve_signing_wallet_iff :
    (env : Env) (account : Text) (accounts wallets : List Text) (w : Text)
    → (resolve_signing_wallet env (account ∷ accounts) wallets ≡ ok w) ↔ (
        (is_empty (env_text env "LEDGER_ADDRESS") ≡ false)
        × FirstWith (env_text env "LEDGER_ADDRESS") wallets w)
unfolding resolve_signing_wallet
resolve_signing_wallet_iff env account accounts wallets w = (sound, complete)
  where
    found :
        (ledger : Text) (o : Option Text)
        → find_wallet ledger wallets ≡ o
        → known_wallet o ≡ ok w
        → FirstWith ledger wallets w
    found ledger none e h = cc
    found ledger (some v) e h =
        let same : v ≡ w = ground arith in find_wallet_sound ledger wallets w (cc)

    sound :
        resolve_signing_wallet env (account ∷ accounts) wallets ≡ ok w
        → (is_empty (env_text env "LEDGER_ADDRESS") ≡ false)
          × FirstWith (env_text env "LEDGER_ADDRESS") wallets w
    sound h =
        let (a, read, h') = >>=-eq-ok (ledger_address env) _ h in
        let (same, full) = (ledger_address_iff env a).0 read in
        let first : FirstWith a wallets w = found a (find_wallet a wallets) refl h' in
        (rw same full, rw same first)

    complete :
        (is_empty (env_text env "LEDGER_ADDRESS") ≡ false)
          × FirstWith (env_text env "LEDGER_ADDRESS") wallets w
        → resolve_signing_wallet env (account ∷ accounts) wallets ≡ ok w
    complete (full, first) =
        let chosen : find_wallet (env_text env "LEDGER_ADDRESS") wallets ≡ some w = rw first.place (
          find_wallet_complete (env_text env "LEDGER_ADDRESS") first.before w first.after
            first.matches first.others) in
        rw ((ledger_address_iff env (env_text env "LEDGER_ADDRESS")).1 (refl, full), chosen)

-- A wallet that was chosen on a Ledger connection never fails the guard behind the selection.
pub assert_active_signer-resolve_signing_wallet :
    (is_address : AddressTest) (env : Env) (ledger_accounts wallets : List Text) (w : Text)
    → resolve_signing_wallet env ledger_accounts wallets ≡ ok w
    → assert_expected_signer is_address env w ≡ ok tt
    → assert_active_signer is_address env ledger_accounts w ≡ ok w
unfolding assert_active_signer assert_ledger_signer
assert_active_signer-resolve_signing_wallet is_address env [] wallets w h e = rw e
assert_active_signer-resolve_signing_wallet is_address env (a ∷ accounts) wallets w h e =
    let (full, first) = (resolve_signing_wallet_iff env a accounts wallets w).0 h in
    rw (e, (ledger_address_iff env (env_text env "LEDGER_ADDRESS")).1 (refl, full), first.matches)
