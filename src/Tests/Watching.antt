-- ===== src/Tests/Watching.antt =====
-- The watch over a deployed model at concrete rounds.
use lightserve.Prelude.{arith, ◌≡◌, refl, some, List, [], ◌∷◌}
use lightserve.Retraining.{
  CanaryRound, Reading, pass, last_round, later, add_round, add_present, add_scored, is_low,
  first_low_pair, since_of, judge, watch_verdict,
}
use lightserve.Retraining.Gathering.{Rising, add_round-Rising}
use lightserve.Retraining.Watching.{Outcome, watch_verdict-Outcome}

abbrev early : CanaryRound
early = record { finished_at = 20; accuracy = 700 }

abbrev recent : CanaryRound
recent = record { finished_at = 30; accuracy = 820 }

abbrev scraped : Reading
scraped = record { switched_at = some 10; scored = some 690; last_run = some 40 }

abbrev two_rounds : List CanaryRound
two_rounds = early ∷ recent ∷ []

gathered :
    add_round two_rounds scraped ≡ early ∷ recent ∷ record { finished_at = 40; accuracy = 690 } ∷ []
unfolding add_round add_present add_scored later last_round
gathered = refl

passed : watch_verdict two_rounds 850 5 (some 10) 60 50 40 100 2 ≡ pass 2
unfolding watch_verdict judge first_low_pair is_low since_of last_round
passed = refl

add_round-Rising_example :
    Rising (add_round two_rounds scraped)
    × (add_round (add_round two_rounds scraped) scraped ≡ add_round two_rounds scraped)
add_round-Rising_example = add_round-Rising two_rounds scraped (omega arith, tt)

watch_verdict-Outcome_example :
    Outcome two_rounds 850 5
      (some 10)
      60
      50
      40
      100
      2
      (watch_verdict two_rounds 850 5 (some 10) 60 50 40 100 2)
watch_verdict-Outcome_example = watch_verdict-Outcome two_rounds 850 5 (some 10) 60 50 40 100 2
