-- ===== src/Mobile/RuntimeTests.antt =====
-- Runs of the phone's runtime.
use cucoudle.Prelude.{◌≡◌, refl, none, some, [], ◌∷◌, arith, eq_iff}
use cucoudle.Protocol.Json.{Fields, end, field, number}
use cucoudle.Mobile.Coordinator.{
  CoordinatorStatus, create_connection_coordinator, OpenSessionRecovery,
}
use cucoudle.Mobile.Coordinator.Sync.{fulfilled}
use cucoudle.Mobile.Runtime.{Runtime, create_mobile_runtime, open_session, session_answered}
use cucoudle.Mobile.Runtime.Latest.{results, latest_wins}

abbrev online_runtime : Runtime
online_runtime = record create_mobile_runtime {
  coordinator = record create_connection_coordinator { status = CoordinatorStatus.online };
}

abbrev reply_fields : Fields
reply_fields = field "lastSeq" (number 7) end

latest_wins_example :
    let s = (open_session "b" none (open_session "a" none online_runtime).0).0 in
    let early = session_answered "a" (fulfilled end) s in
    let late = session_answered "b" (fulfilled reply_fields) s in
    (results early.1 ≡ [])
    × (results (session_answered "a" (fulfilled end) late.0).1 ≡ [])
    × (results late.1 ≡ reply_fields ∷ [])
    × (results (session_answered "b" (fulfilled reply_fields) early.0).1 ≡ reply_fields ∷ [])
unfolding create_mobile_runtime
latest_wins_example =
    latest_wins "a" "b" none none end reply_fields online_runtime refl
      (λ e. ground (arith, (eq_iff "a" "b").1 e))

abbrev seen : OpenSessionRecovery
seen = record { session_id = "a"; after_seq = some 3 }
