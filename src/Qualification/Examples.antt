-- ===== src/Qualification/Examples.antt =====
-- Runs of the qualification session, and its theorems at concrete inputs.
use fipwave.Common.{
  ◌⊎◌, map, err, ℕ, ◌≡◌, ◌<◌, refl, arith, true, false, List, [], ◌∷◌, length, All, some, ok,
}
use fipwave.Common.Texts.{same_text}
use fipwave.Qualification.{
  runner_a, runner_b, LiteralDirection, a_to_b, b_to_a, cyrinx_build_failed, InstructionAction,
  transmit, QualificationCase, QualificationSession,
}
use Prim.Native.String.{String}
use fipwave.Qualification.Runner.{
  new_session, is_cyrinx, elapsed, fall_back, activate, start, expire, expire_at, activate_at,
  activate_fallback, assert_before_deadline,
}
use fipwave.Qualification.Cases.{
  complete_build, complete_digital, accept_case, accept_instruction, advance, complete_accepted,
}
use fipwave.Qualification.Snapshot.{take_snapshot, snapshot_with}
use fipwave.Qualification.States.{
  below, Call, call_start, call_complete_build, call_complete_digital, call_accept, call_complete,
  call_fallback, after, Runs, created, called,
}
use fipwave.Qualification.States.Lasting.{complete_in_order, cases_before_deadline}
use fipwave.Qualification.States.Fallen.{after_all, fallback_lasts}
use fipwave.Qualification.Display.{DisplaySession, new_display, apply, display_snapshot}
use fipwave.Qualification.Display.Accepted.{opened, bridged, snapshot_accepted}
use fipwave.Qualification.Corpus.{
  CorpusManifestCase, pseudorandom, Hashes, payload_drift, corpus_case, corpus_cases, cold_case,
  ordered_cases, Committed, case_of, Drift, ordered_cases_lem,
}

-- One case, from A to B.
abbrev one_case : List QualificationCase
one_case = (record { id = "cold"; direction = a_to_b; cold = true }) ∷ []

abbrev calls_to_case : List Call
calls_to_case =
    call_start 1000
    ∷ call_complete_build 2000
    ∷ call_complete_digital 3000
    ∷ call_accept "cold" a_to_b 4000
    ∷ []

abbrev in_case : QualificationSession
in_case = after_all one_case calls_to_case (new_session runner_a)

abbrev at_end : QualificationSession
at_end = after one_case (call_complete transmit 9000) in_case

in_case-Runs : Runs one_case in_case []
in_case-Runs = called (call_accept "cold" a_to_b 4000) (
    called (call_complete_digital 3000)
      (called (call_complete_build 2000) (called (call_start 1000) (created runner_a))))

at_end-Runs : Runs one_case at_end (0 ∷ [])
unfolding start complete_build complete_digital accept_instruction accept_case complete_accepted
    advance assert_before_deadline expire expire_at elapsed same_text
at_end-Runs = called (call_complete transmit 9000) in_case-Runs

complete_in_order_example : (0 ∷ []) ≡ below (length one_case)
unfolding start complete_build complete_digital accept_instruction accept_case complete_accepted
    advance assert_before_deadline expire expire_at elapsed same_text
complete_in_order_example =
    complete_in_order one_case at_end (0 ∷ []) (omega arith) at_end-Runs refl

cases_before_deadline_example :
    ((id : String) (direction : LiteralDirection) (mode : InstructionAction)
      → (accept_instruction one_case id direction 9000 in_case).0 ≡ ok mode
      → (d : ℕ) × (in_case.deadline_at_ms ≡ some d) × (9000 < d))
    × ((mode : InstructionAction)
        → (complete_accepted one_case mode 9000 in_case).0 ≡ ok tt
        → (d : ℕ) × (in_case.deadline_at_ms ≡ some d) × (9000 < d))
cases_before_deadline_example =
    cases_before_deadline one_case in_case [] 9000 (omega arith) in_case-Runs

-- The build fails.
abbrev build_failed : QualificationSession
build_failed =
    after one_case (call_fallback cyrinx_build_failed 1500)
      (after one_case (call_start 1000) (new_session runner_a))

build_failed-Runs : Runs one_case build_failed []
build_failed-Runs =
    called (call_fallback cyrinx_build_failed 1500) (called (call_start 1000) (created runner_a))

fallback_lasts_example :
    ((after_all one_case (call_start 9 ∷ []) build_failed).fallback_reason
      ≡ some cyrinx_build_failed)
    × (is_cyrinx (after_all one_case (call_start 9 ∷ []) build_failed).codec ≡ false)
unfolding start activate_fallback activate_at activate fall_back elapsed
fallback_lasts_example =
    fallback_lasts one_case build_failed [] cyrinx_build_failed (call_start 9 ∷ []) (omega arith)
      build_failed-Runs refl

started_session : QualificationSession
started_session = after one_case (call_start 1000) (new_session runner_b)

snapshot_accepted_example :
    (next : DisplaySession) × (apply
        (display_snapshot (snapshot_with one_case 1 (some 500) (elapsed 1500 started_session).1))
        new_display
      ≡ ok next)
unfolding start elapsed take_snapshot started_session
snapshot_accepted_example =
    snapshot_accepted one_case started_session (elapsed 1500 started_session).1 new_display 1 1500 _
      (omega arith) (bridged (call_start 1000) (opened runner_b)) refl

abbrev flat_hashes : Hashes
flat_hashes = record { seed = λ d size number. 7; digest = λ bytes. "d" }

abbrev random_entry : CorpusManifestCase
random_entry = record {
  id = "a-to-b-256-05";
  direction = a_to_b;
  size = 4;
  pattern = pseudorandom;
  sha256 = "d";
  number = 5;
}

abbrev drifted_entry : CorpusManifestCase
drifted_entry = record random_entry { id = "a-to-b-256-06"; sha256 = "e"; number = 6 }

abbrev two_entries : List CorpusManifestCase
two_entries = random_entry ∷ drifted_entry ∷ []

second_drifts : ordered_cases flat_hashes two_entries ≡ err (payload_drift "a-to-b-256-06")
unfolding ordered_cases corpus_cases corpus_case same_text
second_drifts = refl

ordered_cases_lem_example :
    (All (Committed flat_hashes) two_entries
      × (ordered_cases flat_hashes two_entries
          ≡ ok (
              cold_case "cyrinx-cold-a-to-b" a_to_b 0x3c
              ∷ cold_case "cyrinx-cold-b-to-a" b_to_a 0xc3
              ∷ map (case_of flat_hashes) two_entries)))
    ⊎ ((d : Drift flat_hashes two_entries) × (ordered_cases flat_hashes two_entries
          ≡ err (payload_drift d.entry.id)))
ordered_cases_lem_example = ordered_cases_lem flat_hashes two_entries
