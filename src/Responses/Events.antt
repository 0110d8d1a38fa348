-- ===== src/Responses/Events.antt =====
-- Events and reports from the gateway (apps/pwa/src/services/safetyDataApi.ts). `answer` stands for
-- `getJson`: the parsed body, or the error that it throws. The type of an event, its severity and its
-- state are texts, as the code takes them.
use mathlib.Core.Option
use sentinelmesh.Common.{
  String, Bool, ◌&&◌, not, List, [], ◌∷◌, Option, none, some, ◌==◌, if◌then◌else◌, and_then, get_or,
  to_lower, ◌⊎◌, inl, inr,
}
use sentinelmesh.Types.{Double, TrustState, heuristic, corroborating, confirmed}
use sentinelmesh.Responses.Values.{
  Value, Fields, fields_of, lookup, as_text, as_number, as_boolean, as_array,
}

-- The fields that are set; all others are those of the value.
pub record ParsedEvent : Type 0 where
  pub rest : Fields
  pub id : String
  pub event_type : String
  pub severity : String
  pub title : String
  pub lat : Double
  pub lng : Double
  pub state : String
  pub is_active : Bool
  pub started_at : String
  pub created_at : String
  pub trust_state : TrustState

abbrev pub trust_of : String → TrustState
trust_of trust =
    if trust == "confirmed"
    then confirmed
    else if trust == "corroborating"
    then corroborating
    else heuristic

abbrev pub is_open : String → Bool
is_open state = not (state == "RESOLVED") && not (state == "EXPIRED")

-- The result of `parseEvent` once the required fields are there.
abbrev pub parsed_event :
    Fields → String → String → String → String → Double → Double → String → ParsedEvent
parsed_event fs id event_type severity title lat lng started_at =
    let state = get_or "ACTIVE" (as_text (lookup "state" fs)) in
    record {
      rest = fs;
      id = id;
      event_type = event_type;
      severity = severity;
      title = title;
      lat = lat;
      lng = lng;
      state = state;
      is_active = get_or (is_open state) (as_boolean (lookup "is_active" fs));
      started_at = started_at;
      created_at = get_or started_at (as_text (lookup "created_at" fs));
      trust_state =
          trust_of (get_or "heuristic" (Option.map to_lower (as_text (lookup "trust_state" fs))));
    }

unfoldable pub parse_event : Value → Option ParsedEvent
parse_event v = and_then (fields_of v) (λ fs. and_then (as_text (lookup "id" fs)) (λ id.
    and_then (as_text (lookup "event_type" fs)) (λ event_type.
      and_then (as_text (lookup "severity" fs)) (λ severity.
        and_then (as_text (lookup "title" fs)) (λ title.
          and_then (as_number (lookup "lat" fs)) (λ lat.
            and_then (as_number (lookup "lng" fs)) (λ lng.
              and_then (as_text (lookup "started_at" fs)) (λ started_at.
                some (parsed_event fs id event_type severity title lat lng started_at)))))))))

-- The fields of a report that are checked; the report itself is the value.
pub record ParsedReport : Type 0 where
  pub rest : Fields
  pub id : String
  pub report_type : String
  pub status : String
  pub lat : Double
  pub lng : Double
  pub reporter_tier : String
  pub consensus_score : Double
  pub confirmation_count : Double
  pub denial_count : Double
  pub created_at : String
  pub updated_at : String

unfoldable pub parse_report : Value → Option ParsedReport
parse_report v = and_then (fields_of v) (λ fs. and_then (as_text (lookup "id" fs)) (λ id.
    and_then (as_text (lookup "report_type" fs)) (λ report_type.
      and_then (as_text (lookup "status" fs)) (λ status.
        and_then (as_number (lookup "lat" fs)) (λ lat.
          and_then (as_number (lookup "lng" fs)) (λ lng.
            and_then (as_text (lookup "reporter_tier" fs)) (λ reporter_tier.
              and_then (as_number (lookup "consensus_score" fs)) (λ consensus_score.
                and_then (as_number (lookup "confirmation_count" fs)) (λ confirmation_count.
                  and_then (as_number (lookup "denial_count" fs)) (λ denial_count.
                    and_then (as_text (lookup "created_at" fs)) (λ created_at.
                      and_then (as_text (lookup "updated_at" fs)) (λ updated_at. some (record {
                        rest = fs;
                        id = id;
                        report_type = report_type;
                        status = status;
                        lat = lat;
                        lng = lng;
                        reporter_tier = reporter_tier;
                        consensus_score = consensus_score;
                        confirmation_count = confirmation_count;
                        denial_count = denial_count;
                        created_at = created_at;
                        updated_at = updated_at;
                      })))))))))))))

-- `xs.map(parse).filter(x => x !== null)`
unfoldable pub parse_all {ℓ} : {A : Type ℓ} → (Value → Option A) → List Value → List A
parse_all parse [] = []
parse_all parse (v ∷ vs) =
    let rest = parse_all parse vs in elim (parse v) [ none ↦ rest | some a ↦ a ∷ rest ]

-- The body of the answer must be an object with an array under the key.
unfoldable pub fetch_list {ℓ} :
    {A : Type ℓ} → (Value → Option A) → String → String → String ⊎ Value → String ⊎ List A
fetch_list parse key message (inl error) = inl error
fetch_list parse key message (inr body) =
    elim (and_then (fields_of body) (λ fs. as_array (lookup key fs))) [
      | none ↦ inl message
      | some vs ↦ inr (parse_all parse vs)
    ]

unfoldable pub fetch_initial_events : String ⊎ Value → String ⊎ List ParsedEvent
fetch_initial_events answer = fetch_list parse_event "events" "invalid events response" answer

unfoldable pub fetch_initial_reports : String ⊎ Value → String ⊎ List ParsedReport
fetch_initial_reports answer = fetch_list parse_report "reports" "invalid reports response" answer
