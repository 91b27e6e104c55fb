-- ===== src/Usage/Recorded.antt =====
-- What recording a usage does, and does once.
use zyntry_backend.Prelude.{
  String, ◌≡◌, refl, none, some, Bool, true, false, ◌&&◌, List, [], ◌∷◌, ◌++◌, arith, str_eq,
  eq_iff, if◌then◌else◌,
}
use zyntry_backend.Tables.{find-append}
use zyntry_backend.Usage.{
  UsageRequest, UsageLog, UsageStore, is_same, log_of_request, earlier_log, analytics_of, funded,
  record_usage, reads_expired, missing_greenlet, returned,
}

found_last :
    (user r : String) (log : UsageLog) (logs : List UsageLog)
    → log_of_request user r logs ≡ none
    → (str_eq log.attributes.user_id user && is_same log.attributes.request_id r) ≡ true
    → log_of_request user r (logs ++ log ∷ []) ≡ some log
found_last user r log logs new matches = ground (
  arith,
  new,
  matches,
  find-append (λ l. str_eq l.attributes.user_id user && is_same l.attributes.request_id r) logs
      (log ∷ []),
)

module _ (normal : String → String) where
  -- A usage whose request has no row yet is logged once, with its analytics and what the funding monitor
  -- records, also where the monitor raises; the call returns the row, unless the monitor is asked and
  -- raises and a project is given: then the call raises, after the log and the analytics are
  -- committed. A second usage of the same user and request, whatever its other arguments, returns the first
  -- one's row and changes nothing: no log, no analytics and no cost of the provider.
  pub record_usage-once :
      (id id' fresh fresh' : String) (raises raises' : Bool) (u v : UsageRequest) (r : String)
      (s : UsageStore)
      → u.request_id ≡ some r
      → v.request_id ≡ some r
      → str_eq r "" ≡ false
      → v.user_id ≡ u.user_id
      → log_of_request u.user_id r s.logs ≡ none
      → let log : UsageLog = record { id = id; attributes = u } in
        let first = record_usage normal id raises fresh u s in
        (first.0 ≡ (if reads_expired raises u then missing_greenlet else returned log))
        × (first.1.logs ≡ s.logs ++ log ∷ [])
        × (first.1.analytics ≡ s.analytics ++ analytics_of u)
        × (first.1.funding ≡ funded normal raises fresh u s.funding)
        × (record_usage normal id' raises' fresh' v first.1 ≡ (returned log, first.1))
  unfolding record_usage
  record_usage-once id id' fresh fresh' raises raises' u v r s named same some_text user new =
      let log : UsageLog = record { id = id; attributes = u } in
      let none_yet : earlier_log u s.logs ≡ none = ground (arith, named, some_text, new) in
      let next : UsageStore = record {
        logs = s.logs ++ log ∷ [];
        analytics = s.analytics ++ analytics_of u;
        funding = funded normal raises fresh u s.funding;
      } in
      let first : record_usage normal id raises fresh u s
          ≡ (if reads_expired raises u then missing_greenlet else returned log, next) =
        ground (arith, none_yet) in
      let there : log_of_request u.user_id r next.logs ≡ some log =
        found_last u.user_id r log s.logs new
          (ground (arith, named, eq_iff u.user_id u.user_id, eq_iff r r)) in
      let known : earlier_log v next.logs ≡ some log =
        ground (arith, same, some_text, user, there) in
      let again : record_usage normal id' raises' fresh' v next ≡ (returned log, next) =
        ground (arith, known) in
      simp first (refl, refl, refl, refl, again)
