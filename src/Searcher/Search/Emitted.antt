-- ===== src/Searcher/Search/Emitted.antt =====
-- Which candidates a search emits.
use Prim.Native.String.{String}
use mathlib.Core.Path.{subst}
use mathlib.Core.List.{Memᴰ}
use dexmoney.Prelude.{
  ◌∙◌, append-nil, append_assoc, ◌+◌, ℕ, ◌-◌, ◌≤◌, ◌≡◌, refl, Option, none, some, ok, err, List, [],
  ◌∷◌, ◌++◌, All, ltb, Bool-cases, inl, inr, arith, Bool, ap, sym, ◌↔◌,
}
use dexmoney.Common.Pool.{Address}
use dexmoney.Common.Opportunity.{Candidate, QuoteDiagnostics}
use dexmoney.Searcher.Impact.{quote_model_edge_floor}
use dexmoney.Searcher.Quote.{QuoteContext, Quoted, quote_path}
use dexmoney.Searcher.Search.{
  SearchEngine, SearchPath, Search, required_profit_for_path, emit, edge_gate, impact_gate,
  profit_gate, skip_quote, take_quote, quote_amount, quote_amounts, quote_search_path,
  build_candidate, path_with_diagnostics,
}
use dexmoney.Searcher.Risk.Gate.{IsListed, AllAvailable, validate_candidate-Passes}
use dexmoney.Searcher.Risk.{validate_candidate}

-- A candidate as the search means it: its profit is its output less its input, at least what the path
-- asks for and the edge over the model's error, and its impact within the limit.
pub record Worthy (engine : SearchEngine) (search_path : SearchPath) (c : Candidate) : Type 0 where
  pub gains : c.expected_profit ≡ c.expected_amount_out - c.amount_in
  pub profit : required_profit_for_path engine search_path ≤ c.expected_profit
  pub impact : c.price_impact_bps ≤ engine.max_price_impact_bps
  pub asks : c.min_profit ≡ search_path.min_profit
  pub steps : c.path.steps ≡ search_path.path.steps
  pub edge :
      (d : QuoteDiagnostics)
      → c.path.diagnostics ≡ some d
      → quote_model_edge_floor c.amount_in d engine.v3_quote_safety_bps ≤ c.expected_profit

-- A candidate tells what quoting the path for one of its amounts brought.
pub record IsQuoted (context : QuoteContext) (search_path : SearchPath) (c : Candidate)
    : Type 0 where
  pub size : Memᴰ c.amount_in search_path.amount_sizes
  pub diagnostics : QuoteDiagnostics
  pub quoted :
      quote_path context search_path.path c.amount_in
      ≡ ok (some (c.expected_amount_out, c.price_impact_bps, diagnostics))
  pub told : c.path.diagnostics ≡ some diagnostics

All-append :
    (P : Candidate → Type 0) (xs ys : List Candidate) → All P xs → All P ys → All P (xs ++ ys)
All-append P [] ys p q = q
All-append P (x ∷ xs) ys (p, ps) q = (p, All-append P xs ys ps q)

module _ (engine : SearchEngine) (search_path : SearchPath) (context : QuoteContext) where
  abbrev pub WorthyQuote : Candidate → Type 0
  WorthyQuote c = Worthy engine search_path c × IsQuoted context search_path c

  -- One search went on from another: nothing that was found before is lost or changed, and what it adds is
  -- quoted and worthy.
  abbrev pub AddsWorthy : Search → Search → Type 0
  AddsWorthy before after =
      (emitted : List Candidate) × (after.out ≡ before.out ++ emitted) × All WorthyQuote emitted

  adds_none : (before : Search) → AddsWorthy before before
  adds_none before = ([], append-nil before.out, tt)

  AddsWorthy-trans : (a b c : Search) → AddsWorthy a b → AddsWorthy b c → AddsWorthy a c
  AddsWorthy-trans a b c (xs, ex, px) (ys, ey, py) = (
    xs ++ ys,
    ey ∙ ap (λ l. l ++ ys) ex ∙ append_assoc a.out xs ys,
    All-append WorthyQuote xs ys px py,
  )

  module _ (amount_in : ℕ) (size : Memᴰ amount_in search_path.amount_sizes) where
    edge_of :
        {d : QuoteDiagnostics} {profit : ℕ} (d' : QuoteDiagnostics)
        → ◌≡◌ {A = Option QuoteDiagnostics} (some d) (some d')
        → quote_model_edge_floor amount_in d engine.v3_quote_safety_bps ≤ profit
        → quote_model_edge_floor amount_in d' engine.v3_quote_safety_bps ≤ profit
    edge_of {d} {profit} d' same floor =
        let same' : d ≡ d' = cc in
        subst (λ x. quote_model_edge_floor amount_in x engine.v3_quote_safety_bps ≤ profit) same'
          floor

    edge_gate-Worthy :
        (out impact : ℕ) (d : QuoteDiagnostics) (s : Search)
        → quote_path context search_path.path amount_in ≡ ok (some (out, impact, d))
        → required_profit_for_path engine search_path ≤ out - amount_in
        → impact ≤ engine.max_price_impact_bps
        → AddsWorthy s (edge_gate engine search_path amount_in out (out - amount_in) impact d s)
    unfolding edge_gate emit build_candidate path_with_diagnostics
    edge_gate-Worthy out impact d s same enough within =
        elim (Bool-cases
          (ltb (out - amount_in) (quote_model_edge_floor amount_in d engine.v3_quote_safety_bps))) [
            | inl e ↦ rw e (adds_none s)
            | inr e ↦
                let floor : quote_model_edge_floor amount_in d engine.v3_quote_safety_bps
                    ≤ out - amount_in =
                  ground arith in
                rw e (
                  _,
                  refl,
                  (
                    (
                      record {
                        gains = refl;
                        profit = enough;
                        impact = within;
                        asks = refl;
                        steps = refl;
                        edge = λ d' told. edge_of d' told floor;
                      },
                      record { size = size; diagnostics = d; quoted = same; told = refl },
                    ),
                    tt,
                  ),
                )
          ]

    impact_gate-Worthy :
        (out impact : ℕ) (d : QuoteDiagnostics) (s : Search)
        → quote_path context search_path.path amount_in ≡ ok (some (out, impact, d))
        → required_profit_for_path engine search_path ≤ out - amount_in
        → AddsWorthy s (impact_gate engine search_path amount_in out (out - amount_in) impact d s)
    unfolding impact_gate
    impact_gate-Worthy out impact d s same enough =
        elim (Bool-cases (ltb engine.max_price_impact_bps impact)) [
          | inl e ↦ rw e (adds_none s)
          | inr e ↦ rw e (edge_gate-Worthy out impact d _ same enough (ground arith))
        ]

    take_quote-Worthy :
        (q : Quoted (Option (ℕ × ℕ × QuoteDiagnostics))) (s : Search)
        → quote_path context search_path.path amount_in ≡ q
        → AddsWorthy s (take_quote engine search_path amount_in q s)
    unfolding take_quote skip_quote profit_gate
    take_quote-Worthy (err skip) s same = adds_none s
    take_quote-Worthy (ok none) s same = adds_none s
    take_quote-Worthy (ok (some (out, impact, d))) s same =
        elim (Bool-cases (ltb (out - amount_in) (required_profit_for_path engine search_path))) [
          | inl e ↦ rw e (adds_none s)
          | inr e ↦ rw e (impact_gate-Worthy out impact d _ same (ground arith))
        ]

  quote_amounts-Worthy :
      (amounts : List ℕ) (s : Search)
      → ((a : ℕ) → Memᴰ a amounts → Memᴰ a search_path.amount_sizes)
      → AddsWorthy s (quote_amounts engine context search_path amounts s)
  unfolding quote_amounts quote_amount
  quote_amounts-Worthy [] s sizes = adds_none s
  quote_amounts-Worthy (amount_in ∷ amounts) s sizes =
      let next = quote_amount engine context search_path amount_in s in
      AddsWorthy-trans s next (quote_amounts engine context search_path amounts next)
        (take_quote-Worthy amount_in (sizes amount_in (Memᴰ.head refl))
          (quote_path context search_path.path amount_in)
          (record s { stats = record s.stats { quote_attempts = s.stats.quote_attempts + 1 } })
          refl)
        (quote_amounts-Worthy amounts next (λ a m. sizes a (Memᴰ.tail m)))

  -- Whatever was found before, quoting a path keeps it and adds only candidates for the path behind it. Each has
  -- one of the path's amounts and the output, impact and diagnostics that quoting the path for this amount
  -- brought; its profit is output less input, at least the required one and the model's edge, and its impact
  -- is within the limit.
  pub quote_search_path-Worthy :
      (s : Search)
      → (emitted : List Candidate) × ((quote_search_path engine context search_path s).out
          ≡ s.out ++ emitted)
        × All WorthyQuote emitted
  unfolding quote_search_path
  quote_search_path-Worthy s = quote_amounts-Worthy search_path.amount_sizes s (λ a m. m)

module _ (engine : SearchEngine) (search_path : SearchPath) where
  -- Under the engine's thresholds and any whitelist, the risk gate accepts a worthy candidate exactly where its
  -- path is listed, as an empty whitelist lists all, and every pool of the path is available: the search's own
  -- gates have settled profit and impact.
  pub Worthy-passes :
      (c : Candidate) (available_pools : Address → Bool) (whitelist : List String)
      → Worthy engine search_path c
      → (validate_candidate c available_pools engine.min_expected_profit engine.max_price_impact_bps
            whitelist
          ≡ ok tt)
        ↔ (IsListed whitelist c.path.name × AllAvailable available_pools search_path.path.steps)
  unfolding required_profit_for_path
  Worthy-passes c available_pools whitelist worthy =
      let gate =
        validate_candidate-Passes c available_pools engine.min_expected_profit
          engine.max_price_impact_bps whitelist in
      let asks = worthy.asks in
      let profit = worthy.profit in
      (
        λ h.
            let p = gate.0 h in
            (p.listed, subst (AllAvailable available_pools) worthy.steps p.pools),
        λ (listed, present). gate.1 (record {
          own = ground arith;
          general = ground arith;
          impact = worthy.impact;
          listed = listed;
          pools = subst (AllAvailable available_pools) (sym worthy.steps) present;
        }),
      )
