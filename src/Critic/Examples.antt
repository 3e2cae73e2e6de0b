-- ===== src/Critic/Examples.antt =====
-- A queue in which the critic has something to withhold: the theorems on reviews at that queue.
use multi_agent_ad_optimizer.Prelude.{
  ℕ, ◌+◌, String, true, false, Option, none, some, List, [], ◌∷◌, inl, inr, ◌≡◌, refl, string_eq,
  ltb, leb, elem,
}
use multi_agent_ad_optimizer.Critic.Proposal.{
  Number, Preflight, Proposal, ConflictRule, is_unexecutable,
}
use multi_agent_ad_optimizer.Critic.Rules.{is_live}
use multi_agent_ad_optimizer.Critic.Review.{review}
use multi_agent_ad_optimizer.Critic.Marks.{marked, review-Marks}
use multi_agent_ad_optimizer.Critic.Verdict.{review-withholds_unexecutable}

-- Confidence in thousandths.
instance abbrev thousandths : Number ℕ
thousandths = record {
  zero = 0;
  one = 1000;
  add = λ a b. a + b;
  lt = λ a b. ltb a b;
  le = λ a b. leb a b;
  critical_gap = 500;
  dominance_margin = 100;
}

abbrev proposal : String → String → String → ℕ → Option Preflight → Proposal ℕ
proposal id type creative confidence preflight = record {
  id = some id;
  type = some type;
  campaign = some "c1";
  creative = some creative;
  confidence = some confidence;
  iteration = some 0;
  direction = none;
  reference = none;
  severity = some "warning";
  urgency = none;
  reason = none;
  preflight = preflight;
}

abbrev pausing : Proposal ℕ
pausing = proposal "a1" "pause_campaign" "" 900 none

abbrev resuming : Proposal ℕ
resuming = proposal "a2" "resume_campaign" "" 700 none

abbrev stopping : Proposal ℕ
stopping = proposal "a3" "pause_creative" "k1" 800 none

abbrev reviving : Proposal ℕ
reviving = proposal "a4" "resume_creative" "k1" 600 none

abbrev impossible : Proposal ℕ
impossible =
    proposal "a5" "adjust_bid" "" 990
      (some (record { tool = none; outcome = none; error = none; blocking = true }))

abbrev queue : List (Proposal ℕ)
queue = pausing ∷ resuming ∷ stopping ∷ reviving ∷ impossible ∷ []

abbrev pause_rule : ConflictRule
pause_rule = record {
  dominant = "pause_campaign";
  contradicted = "resume_campaign" ∷ [];
  kind = "campaign_pause_resume_conflict";
}

abbrev creative_rule : ConflictRule
creative_rule = record {
  dominant = "pause_creative";
  contradicted = "resume_creative" ∷ [];
  kind = "creative_pause_resume_conflict";
}

review-Marks_example :
    elem "a2" (review 0 queue).suppressed ≡ elem "a2" (marked (review 0 queue).findings)
review-Marks_example = review-Marks 0 queue "a2"

review-withholds_unexecutable_example : is_live (review 0 queue).suppressed impossible ≡ false
unfolding is_unexecutable
review-withholds_unexecutable_example =
    review-withholds_unexecutable 0 queue impossible (inr (inr (inr (inr (inl refl))))) refl
