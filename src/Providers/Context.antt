-- ===== src/Providers/Context.antt =====
-- `SearchContext` and its `SourceCollector`, of src/providers/mod.rs. Clones of a context share the
-- collector, so it is passed along as the state. Instants and durations are numbers of nanoseconds;
-- `now` is the time of the call.
pub mod Rows
pub mod Sealing
use panshou.Prelude.{
  ℕ, ◌-◌, min, Bool, true, false, not, ◌&&◌, ◌||◌, Option, none, some, List, [], ◌∷◌, ◌++◌, ◌==◌,
  if◌then◌else◌, is_empty, any, or_option, filter_option, Eq, arith, ◌≡◌, ◌↔◌,
}
use panshou.Prelude.Keyed.{absorb, absorb_all}
use panshou.Text.{Text, text_beq, text_beq_iff, text_eq}
use panshou.Env.{Env}
use panshou.Core.Model.{Source, source_beq, Link, SearchResult}
use panshou.Core.Model.Equality.{source_beq_iff}
use panshou.Core.Link.Normalize.{canonical_url_key}
use panshou.Core.Merge.{result_key}

pub record SourceCollector : Type 0 where
  pub sealed : Bool
  pub results : List SearchResult

pub record SearchContext : Type 0 where
  pub timeout : ℕ
  pub deadline : Option ℕ
  pub collector : SourceCollector

abbrev empty_collector : SourceCollector
empty_collector = record { sealed = false; results = [] }

abbrev new_context : ℕ → SearchContext
new_context timeout = record { timeout = timeout; deadline = none; collector = empty_collector }

-- `saturating_duration_since` stops at 0.
unfoldable pub for_source : ℕ → ℕ → SearchContext
for_source now deadline = record {
  timeout = deadline - now;
  deadline = some deadline;
  collector = empty_collector;
}

abbrev pub remaining : ℕ → SearchContext → ℕ
remaining now ctx = elim ctx.deadline [ none ↦ ctx.timeout | some d ↦ d - now ]

unfoldable request_timeout : ℕ → SearchContext → ℕ → ℕ
request_timeout now ctx maximum = min (remaining now ctx) maximum

unfoldable has_results : SearchContext → Bool
has_results ctx = not (is_empty ctx.collector.results)

pub is_cancelled : ℕ → SearchContext → Bool
is_cancelled now ctx = (remaining now ctx == 0) || ctx.collector.sealed

unfoldable pub publish : ℕ → SearchContext → List SearchResult → SearchContext × Bool
publish now ctx results =
    if ctx.collector.sealed || (remaining now ctx == 0) then (ctx, false) else (
      record ctx {
        collector = record ctx.collector { results = ctx.collector.results ++ results };
      },
      true,
    )

-- The loops over tags and images: push what is not there.
abbrev push_new : List Text → List Text → List Text
push_new old [] = old
push_new old (t ∷ ts) = push_new (if any (λ o. text_beq o t) old then old else old ++ t ∷ []) ts

abbrev pub nonempty : Option Text → Option Text
nonempty o = filter_option (λ v. not (is_empty v)) o

abbrev keep_or : Text → Text → Text
keep_or new old = if is_empty new then old else new

-- A known link and a later one with its key.
pub update_row_link : Link → Link → Link
update_row_link old link = record link {
  password = or_option (nonempty link.password) old.password;
  work_title = or_option (nonempty link.work_title) old.work_title;
  datetime = or_option link.datetime old.datetime;
}

-- Two results are of one row.
abbrev RowKey : Type 0
RowKey = Source × Text

pub row_key_iff : (a b : RowKey) → (source_beq a.0 b.0 && text_beq a.1 b.1 ≡ true) ↔ (a ≡ b)
row_key_iff a b = ground (arith, source_beq_iff a.0 b.0, text_beq_iff a.1 b.1)

instance abbrev pub row_key_eq : Eq RowKey
row_key_eq = record { beq = λ a b. source_beq a.0 b.0 && text_beq a.1 b.1; beq_iff = row_key_iff }

module _ (env : Env) where
  abbrev pub row_link_key : Link → Text
  row_link_key link = canonical_url_key env link.url

  abbrev row_key : SearchResult → RowKey
  row_key r = (r.source, result_key env r)

  -- The body of `if let Some(previous)`.
  pub update_row : SearchResult → SearchResult → SearchResult
  unfolding update_row_link
  update_row previous row = record previous {
    title = keep_or row.title previous.title;
    content = keep_or row.content previous.content;
    datetime = or_option row.datetime previous.datetime;
    tags = push_new previous.tags row.tags;
    images = push_new previous.images row.images;
    links = absorb_all row_link_key update_row_link previous.links row.links;
  }

  -- The rows of a collector: the first of a key takes the later ones in.
  pub rows_of : List SearchResult → List SearchResult
  unfolding update_row result_key
  rows_of results = absorb_all row_key update_row [] results

  unfoldable pub finish : SearchContext → List SearchResult → SearchContext × List SearchResult
  unfolding rows_of
  finish ctx results =
      let collector =
        if not ctx.collector.sealed
        then record { sealed = true; results = ctx.collector.results ++ results }
        else ctx.collector in
      (record ctx { collector = collector }, rows_of collector.results)
