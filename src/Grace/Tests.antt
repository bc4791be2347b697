-- ===== src/Grace/Tests.antt =====
-- The grace at a pair that was kept five seconds after the epoch.
use inite_auth_service.Common.{none, some, true, ◌≡◌, refl, arith, ◌-◌, ◌/◌}
use inite_auth_service.FieldCrypto.{AesLaws, FieldCrypto, encrypt}
use inite_auth_service.Store.{TokenRow}
use inite_auth_service.Grace.{seal_replay, open_replay, within_grace}
use inite_auth_service.Grace.Replay.{open_replay-seal_replay}
use inite_auth_service.Samples.{toy_aes, toy_json, issued_pair, token_row}

abbrev keyed : FieldCrypto
keyed = record { key = some "k1" }

toy-AesLaws : AesLaws toy_aes "k1" "iv" "pair"
toy-AesLaws = record { unseal-seal = refl; dotless_tag = refl; dotless_text = refl }

abbrev holder : TokenRow
holder = record (token_row "t1" "s1" none) {
  revoked = true;
  revoked_at = some 5000;
  grace_replay = some "v1.iv.k1.pair";
  grace_replay_until = some 35000;
}

sealed :
    seal_replay toy_aes toy_json (some keyed) 30000 "iv" 5000 "t1" issued_pair
    ≡ some ("v1.iv.k1.pair", 35000)
unfolding seal_replay encrypt
sealed = refl

open_replay-seal_replay_example :
    open_replay toy_aes toy_json (some keyed) holder 9000
    ≡ some (record issued_pair { expires_in = 600 - (9000 - 5000) / 1000 })
open_replay-seal_replay_example =
    open_replay-seal_replay toy_aes toy_json keyed "k1" "iv" "t1" issued_pair 5000 30000
      "v1.iv.k1.pair" 35000 holder 9000 toy-AesLaws refl refl refl (omega arith) sealed refl refl
      refl (omega arith) (omega arith)

abbrev rotated : TokenRow
rotated = record (token_row "t1" "s1" none) { revoked = true; revoked_at = some 5000 }

timely_now : within_grace rotated 30000 20000 ≡ true
unfolding within_grace
timely_now = refl
