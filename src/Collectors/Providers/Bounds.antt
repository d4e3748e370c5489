-- ===== src/Collectors/Providers/Bounds.antt =====
-- How many indicators a normaliser gives.
use cyber_threat_intelligenc.Prelude.{
  ℕ, suc, ◌≤◌, ◌<◌, Option, none, some, List, [], ◌∷◌, length, take, length-take, length-append,
  arith,
}
use cyber_threat_intelligenc.Prelude.Text.{Text}
use cyber_threat_intelligenc.Iocs.Service.Batch.{CollectedIndicator}
use cyber_threat_intelligenc.Collectors.Providers.{
  AbuseRow, Entry, Pulse, FeedEntry, Step, next, stop, present, prepend, append_within,
  urlhaus_value, urlhaus_loop, collect_urlhaus, abuse_row, abuse_rows, collect_abuseipdb,
  bazaar_rows, collect_malwarebazaar, kev_rows, collect_cisa_kev, otx_value, otx_pulse, otx_loop,
  collect_otx, rss_indicator, rss_feed, rss_loop, collect_rss, or_skip,
}

-- What a loop leaves is below the limit, or its result within it.
abbrev IsBounded : ℕ → Step → Type 0
IsBounded limit (next out) = length out < limit
IsBounded limit (stop out) = length out ≤ limit

append_within-IsBounded :
    (limit : ℕ) (out : List CollectedIndicator) (ind : CollectedIndicator)
    → length out < limit
    → IsBounded limit (append_within limit out ind)
unfolding append_within
append_within-IsBounded limit out ind less =
    let more = length-append out (ind ∷ []) in ground (arith, more)

urlhaus_step-IsBounded :
    (limit : ℕ) (out : List CollectedIndicator) (entry : Entry) (o : Option Text)
    → length out < limit
    → IsBounded limit (urlhaus_value limit out entry o)
unfolding append_within
urlhaus_step-IsBounded limit out entry none less = less
urlhaus_step-IsBounded limit out entry (some url) less = append_within-IsBounded limit out _ less

urlhaus_loop-bound :
    (limit : ℕ) (out : List CollectedIndicator) (values : List (List Entry))
    → length out < limit
    → length (urlhaus_loop limit out values) ≤ limit
unfolding urlhaus_loop
urlhaus_loop-bound limit out [] less = omega arith
urlhaus_loop-bound limit out ([] ∷ rest) less = urlhaus_loop-bound limit out rest less
urlhaus_loop-bound limit out ((entry ∷ entries) ∷ rest) less =
    after (urlhaus_value limit out entry (present entry.value))
      (urlhaus_step-IsBounded limit out entry (present entry.value) less)
      (λ out' below. urlhaus_loop-bound limit out' rest below)
  where
    after :
        (step : Step)
        → IsBounded limit step
        → ((out' : List CollectedIndicator)
            → length out' < limit
            → length (urlhaus_loop limit out' rest) ≤ limit)
        → length (elim step [ next out' ↦ urlhaus_loop limit out' rest | stop out' ↦ out' ]) ≤ limit
    after (next out') bounded later = later out' bounded
    after (stop out') bounded later = bounded

or_skip-bound :
    (f : Text → CollectedIndicator) (o : Option Text) (rest : List CollectedIndicator) (n : ℕ)
    → length rest ≤ n
    → length (or_skip f o rest) ≤ suc n
or_skip-bound f none rest n less = omega arith
or_skip-bound f (some v) rest n less = omega arith

bazaar_rows-bound : (rows : List Entry) → length (bazaar_rows rows) ≤ length rows
unfolding bazaar_rows
bazaar_rows-bound [] = omega arith
bazaar_rows-bound (row ∷ rows) =
    or_skip-bound _ (present row.value) (bazaar_rows rows) (length rows) (bazaar_rows-bound rows)

kev_rows-bound : (rows : List Entry) → length (kev_rows rows) ≤ length rows
unfolding kev_rows
kev_rows-bound [] = omega arith
kev_rows-bound (row ∷ rows) =
    or_skip-bound _ (present row.value) (kev_rows rows) (length rows) (kev_rows-bound rows)

-- An exception, or no more than `n` indicators.
abbrev pub IsWithin : ℕ → Option (List CollectedIndicator) → Type 0
IsWithin n none = Unit
IsWithin n (some inds) = length inds ≤ n

prepend-IsWithin :
    (n : ℕ) (ind : CollectedIndicator) (o : Option (List CollectedIndicator))
    → IsWithin n o
    → IsWithin (suc n) (prepend ind o)
prepend-IsWithin n ind none within = tt
prepend-IsWithin n ind (some inds) within = omega arith

abuse_row-IsWithin :
    (n : ℕ) (row : AbuseRow) (ip : Option Text) (o : Option (List CollectedIndicator))
    → IsWithin n o
    → IsWithin (suc n) (abuse_row row ip o)
unfolding abuse_row
abuse_row-IsWithin n row none o within = tt
abuse_row-IsWithin n row (some ip) o within = prepend-IsWithin n _ o within

abuse_rows-IsWithin : (rows : List AbuseRow) → IsWithin (length rows) (abuse_rows rows)
unfolding abuse_rows
abuse_rows-IsWithin [] = omega arith
abuse_rows-IsWithin (row ∷ rows) =
    abuse_row-IsWithin (length rows) row row.ip_address (abuse_rows rows) (abuse_rows-IsWithin rows)

otx_pulse-IsBounded :
    (limit : ℕ) (pulse : Pulse) (out : List CollectedIndicator) (inds : List (Option Text))
    → length out < limit
    → IsBounded limit (otx_pulse limit pulse out inds)
unfolding otx_pulse
otx_pulse-IsBounded limit pulse out [] less = less
otx_pulse-IsBounded limit pulse out (ind ∷ inds) less =
    after (otx_value limit pulse out (present ind)) (value_bounded (present ind))
      (λ out' below. otx_pulse-IsBounded limit pulse out' inds below)
  where
    value_bounded : (o : Option Text) → IsBounded limit (otx_value limit pulse out o)
    value_bounded none = less
    value_bounded (some v) = append_within-IsBounded limit out _ less

    after :
        (step : Step)
        → IsBounded limit step
        → ((out' : List CollectedIndicator)
            → length out' < limit
            → IsBounded limit (otx_pulse limit pulse out' inds))
        → IsBounded limit
            (elim step [ next out' ↦ otx_pulse limit pulse out' inds | stop out' ↦ stop out' ])
    after (next out') bounded later = later out' bounded
    after (stop out') bounded later = bounded

otx_loop-bound :
    (limit : ℕ) (out : List CollectedIndicator) (pulses : List Pulse)
    → length out < limit
    → length (otx_loop limit out pulses) ≤ limit
unfolding otx_loop
otx_loop-bound limit out [] less = omega arith
otx_loop-bound limit out (pulse ∷ pulses) less =
    after (otx_pulse limit pulse out pulse.indicators)
      (otx_pulse-IsBounded limit pulse out pulse.indicators less)
      (λ out' below. otx_loop-bound limit out' pulses below)
  where
    after :
        (step : Step)
        → IsBounded limit step
        → ((out' : List CollectedIndicator)
            → length out' < limit
            → length (otx_loop limit out' pulses) ≤ limit)
        → length (elim step [ next out' ↦ otx_loop limit out' pulses | stop out' ↦ out' ]) ≤ limit
    after (next out') bounded later = later out' bounded
    after (stop out') bounded later = bounded

rss_feed-IsBounded :
    (limit : ℕ) (out : List CollectedIndicator) (entries : List FeedEntry)
    → length out < limit
    → IsBounded limit (rss_feed limit out entries)
unfolding rss_feed
rss_feed-IsBounded limit out [] less = less
rss_feed-IsBounded limit out (entry ∷ entries) less =
    after (append_within limit out (rss_indicator entry))
      (append_within-IsBounded limit out (rss_indicator entry) less)
      (λ out' below. rss_feed-IsBounded limit out' entries below)
  where
    after :
        (step : Step)
        → IsBounded limit step
        → ((out' : List CollectedIndicator)
            → length out' < limit
            → IsBounded limit (rss_feed limit out' entries))
        → IsBounded limit
            (elim step [ next out' ↦ rss_feed limit out' entries | stop out' ↦ stop out' ])
    after (next out') bounded later = later out' bounded
    after (stop out') bounded later = bounded

rss_loop-bound :
    (limit : ℕ) (out : List CollectedIndicator) (feeds : List (List FeedEntry))
    → length out < limit
    → length (rss_loop limit out feeds) ≤ limit
unfolding rss_loop
rss_loop-bound limit out [] less = omega arith
rss_loop-bound limit out (feed ∷ feeds) less =
    after (rss_feed limit out (take limit feed))
      (rss_feed-IsBounded limit out (take limit feed) less)
      (λ out' below. rss_loop-bound limit out' feeds below)
  where
    after :
        (step : Step)
        → IsBounded limit step
        → ((out' : List CollectedIndicator)
            → length out' < limit
            → length (rss_loop limit out' feeds) ≤ limit)
        → length (elim step [ next out' ↦ rss_loop limit out' feeds | stop out' ↦ out' ]) ≤ limit
    after (next out') bounded later = later out' bounded
    after (stop out') bounded later = bounded

-- The six normalisers, for a limit of at least one.
weaken_within :
    (m n : ℕ) (o : Option (List CollectedIndicator)) → m ≤ n → IsWithin m o → IsWithin n o
weaken_within m n none less within = tt
weaken_within m n (some inds) less within = omega arith

pub collect_abuseipdb-IsWithin :
    (limit : ℕ) (rows : List AbuseRow) → IsWithin limit (collect_abuseipdb limit rows)
unfolding collect_abuseipdb
collect_abuseipdb-IsWithin limit rows =
    let taken = length-take limit rows in
    weaken_within (length (take limit rows)) limit (abuse_rows (take limit rows)) (omega arith)
      (abuse_rows-IsWithin (take limit rows))

pub collect_urlhaus-bound :
    (limit : ℕ) (values : List (List Entry))
    → 1 ≤ limit
    → length (collect_urlhaus limit values) ≤ limit
unfolding collect_urlhaus
collect_urlhaus-bound limit values positive =
    urlhaus_loop-bound limit [] (take limit values) (omega arith)

pub collect_malwarebazaar-bound :
    (limit : ℕ) (rows : List Entry) → length (collect_malwarebazaar limit rows) ≤ limit
unfolding collect_malwarebazaar
collect_malwarebazaar-bound limit rows =
    omega (arith, bazaar_rows-bound (take limit rows), length-take limit rows)

pub collect_cisa_kev-bound :
    (limit : ℕ) (rows : List Entry) → length (collect_cisa_kev limit rows) ≤ limit
unfolding collect_cisa_kev
collect_cisa_kev-bound limit rows =
    omega (arith, kev_rows-bound (take limit rows), length-take limit rows)

pub collect_otx-bound :
    (limit : ℕ) (pulses : List Pulse) → 1 ≤ limit → length (collect_otx limit pulses) ≤ limit
unfolding collect_otx
collect_otx-bound limit pulses positive = otx_loop-bound limit [] pulses (omega arith)

pub collect_rss-bound :
    (limit : ℕ) (feeds : List (List FeedEntry))
    → 1 ≤ limit
    → length (collect_rss limit feeds) ≤ limit
unfolding collect_rss
collect_rss-bound limit feeds positive = rss_loop-bound limit [] feeds (omega arith)
