-- ===== src/Beacon/Chain/Examples.antt =====
-- A genesis fork version that a node sends as an array (scripts/lib/common.ts,
-- `readBeaconGenesisForkVersion`).
use validator_funding_pool.Base.{◌≡◌, refl}
use validator_funding_pool.Text.{codes}
use validator_funding_pool.Value.{str, arr, null, nil, cons}
use validator_funding_pool.Value.Print.{hex_argument}
use validator_funding_pool.Env.{normalize_hex_length}
use validator_funding_pool.Failure.{ok, err, wrong_hex_length}
use validator_funding_pool.Beacon.Chain.{reported_version}

-- An array of one text is read as the text, and of an array that begins with the prefix the rest.
reported_version_of_array :
    (reported_version (arr (cons (str (codes "00000000")) nil)) ≡ ok (codes "0x00000000"))
    × (reported_version (arr (cons (str (codes "0x00000000")) nil)) ≡ err wrong_hex_length)
    × (reported_version
          (arr (cons (str (codes "0x")) (cons null (cons (str (codes "00000000")) nil))))
        ≡ ok (codes "0x00000000"))
unfolding hex_argument normalize_hex_length
reported_version_of_array = (refl, refl, refl)
