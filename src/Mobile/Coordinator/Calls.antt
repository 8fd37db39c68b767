-- ===== src/Mobile/Coordinator/Calls.antt =====
-- The coordinator's invariant over its calls: where one begins, waits, goes on or ends.
use cucoudle.Prelude.{
  ℕ, suc, ◌+◌, ◌≤◌, ◌≡◌, refl, not, none, some, List, [], ◌∷◌, ◌++◌, ◌==◌, filter, All, All-append,
  All-filter, arith, if◌then◌else◌,
}
use cucoudle.Mobile.Pairing.{PairingProfile}
use cucoudle.Mobile.Coordinator.{Coordinator, Stage, Run}
use cucoudle.Mobile.Coordinator.Sync.{find_run, suspend}
use cucoudle.Mobile.Coordinator.Invariant.{IsCoordinated, versions}

versions-append : (v : ℕ) (rs ss : List Run) → versions v (rs ++ ss) ≡ versions v rs + versions v ss
versions-append v [] ss = omega arith
versions-append v (r ∷ rs) ss = ground (arith, versions-append v rs ss)

-- The call ends, and nothing waits for it.
pub ended : (v : ℕ) (c : Coordinator) → IsCoordinated (some v) c → IsCoordinated none c
ended v c h = record {
  timed = h.timed;
  given = h.given;
  apart = h.apart;
  call = tt;
  quiet = h.quiet;
  heard = h.heard;
}

pub suspend-IsCoordinated :
    (v : ℕ) (profile : PairingProfile) (stage : Stage) (c : Coordinator)
    → IsCoordinated (some v) c
    → IsCoordinated none (suspend v profile stage c)
suspend-IsCoordinated v profile stage c h =
    let run : Run = record { version = v; active_profile = profile; stage = stage } in
    record {
      timed = h.timed;
      given = All-append (λ r. r.version ≤ c.run_version) c.runs (run ∷ []) h.given (h.call.0, tt);
      apart = λ w. ground (arith, versions-append w c.runs (run ∷ []), h.apart w, h.call.1);
      call = tt;
      quiet = h.quiet;
      heard = h.heard;
    }

pub versions-filter_other :
    (v w : ℕ) (rs : List Run)
    → versions w (filter (λ r. not (r.version == v)) rs) ≡ (if w == v then 0 else versions w rs)
versions-filter_other v w [] = ground arith
versions-filter_other v w (r ∷ rs) = ground (arith, versions-filter_other v w rs)

pub find_run-found :
    (v : ℕ) (rs : List Run) (run : Run) → find_run v rs ≡ some run → run.version ≡ v
unfolding find_run
find_run-found v [] run h = absurd (ground arith)
find_run-found v (r ∷ rs) run h = ground (arith, h, find_run-found v rs run)

find_run-given :
    (v n : ℕ) (rs : List Run) (run : Run)
    → find_run v rs ≡ some run
    → All (λ r. r.version ≤ n) rs
    → v ≤ n
unfolding find_run
find_run-given v n [] run h a = absurd (ground arith)
find_run-given v n (r ∷ rs) run h a = ground (arith, h, a.0, find_run-given v n rs run, a.1)

pub versions-fresh : (n : ℕ) (rs : List Run) → All (λ r. r.version ≤ n) rs → versions (suc n) rs ≡ 0
versions-fresh n [] a = refl
versions-fresh n (r ∷ rs) a = ground (arith, a.0, versions-fresh n rs a.1)

pub given_later :
    (n : ℕ) (rs : List Run) → All (λ r. r.version ≤ n) rs → All (λ r. r.version ≤ suc n) rs
given_later n [] a = tt
given_later n (r ∷ rs) a = (omega (arith, a.0), given_later n rs a.1)

-- A call that begins takes the next version.
pub next_version-IsCoordinated :
    (c : Coordinator)
    → IsCoordinated none c
    → IsCoordinated (some (suc c.run_version)) (record c { run_version = suc c.run_version })
next_version-IsCoordinated c h = record {
  timed = h.timed;
  given = given_later c.run_version c.runs h.given;
  apart = h.apart;
  call = (omega arith, versions-fresh c.run_version c.runs h.given);
  quiet = h.quiet;
  heard = h.heard;
}

-- A suspended call goes on.
pub resume-IsCoordinated :
    (v : ℕ) (run : Run) (c : Coordinator)
    → find_run v c.runs ≡ some run
    → IsCoordinated none c
    → IsCoordinated
        (some run.version)
        (record c { runs = filter (λ r. not (r.version == v)) c.runs })
resume-IsCoordinated v run c e h = record {
  timed = h.timed;
  given = All-filter (λ r. r.version ≤ c.run_version) _ c.runs h.given;
  apart = λ w. ground (arith, versions-filter_other v w c.runs, h.apart w);
  call = (
    ground
        (arith, find_run-found v c.runs run e, find_run-given v c.run_version c.runs run e h.given),
    ground (arith, find_run-found v c.runs run e, versions-filter_other v run.version c.runs),
  );
  quiet = h.quiet;
  heard = h.heard;
}
