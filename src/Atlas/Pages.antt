-- ===== src/Atlas/Pages.antt =====
-- atlas/src/derive.ts: pages of records, journals and residencies.
pub mod Partition
mod Tests
use npc_of_the_internet.Shared.{
  ℕ, zero, suc, ◌+◌, ◌-◌, ◌*◌, ◌≤◌, ◌<◌, ◌≡◌, refl, sym, ap, ◌∙◌, Option, none, some, List, [], ◌∷◌,
  ◌++◌, map, Bool, true, false, not, Text, text, length, take, drop, length-take, length-drop, ltb,
  leb, includes, ◌==◌, nat_eq, text_eq, if◌then◌else◌, arith, Bool-cases, inl, inr,
}
use npc_of_the_internet.Chain.Record.{OspRecord}
use npc_of_the_internet.Atlas.{
  type_of, format_record_kind, extract_record_timestamp, record_summary,
}

-- The numbers of a query are natural.
pub record Query : Type 0 where
  pub page : Option ℕ
  pub per_page : Option ℕ

pub record Page (A : Type 0) : Type 0 where
  pub items : List A
  pub page : ℕ
  pub per_page : ℕ
  pub total : ℕ

abbrev or_default : Option ℕ → ℕ → ℕ
or_default none n = n
or_default (some m) n = m

-- `Math.max(query.page ?? 1, 1)`
abbrev pub page_number : Query → ℕ
page_number query = let n = or_default query.page 1 in if ltb n 1 then 1 else n

-- `Math.min(Math.max(query.per_page ?? 50, 1), 200)`
abbrev pub page_size : Query → ℕ
page_size query =
    let n = or_default query.per_page 50 in if ltb n 1 then 1 else if ltb 200 n then 200 else n

-- `start >= total ? [] : items.slice(start, start + perPage)`
pub slice_page : {A : Type 0} → ℕ → ℕ → List A → List A
slice_page page per_page items =
    let start = (page - 1) * per_page in
    if leb (length items) start then [] else take per_page (drop start items)

pub paginate : {A : Type 0} → List A → Option Query → Page A
unfolding slice_page
paginate items none = record {
  items = items;
  page = 1;
  per_page = if length items == 0 then 50 else length items;
  total = length items;
}
paginate items (some query) = record {
  items = slice_page (page_number query) (page_size query) items;
  page = page_number query;
  per_page = page_size query;
  total = length items;
}

abbrev pub record_types : List Text
record_types =
    text "genesis"
    ∷ text "memory"
    ∷ text "drift"
    ∷ text "decision"
    ∷ text "transaction"
    ∷ text "attestation"
    ∷ text "sleep"
    ∷ text "tombstone"
    ∷ []

pub record RecordListItem : Type 0 where
  pub cid : Text
  pub seq : ℕ
  pub kind : Text
  pub issued_at : Text
  pub summary : Text

list_item : (OspRecord → Text) → OspRecord → RecordListItem
list_item compute_cid r = record {
  cid = compute_cid r;
  seq = r.seq;
  kind = format_record_kind r;
  issued_at = extract_record_timestamp r;
  summary = record_summary r;
}

of_type : Text → List OspRecord → List OspRecord
of_type type [] = []
of_type type (r ∷ rest) =
    let later = of_type type rest in if type_of r.body == type then r ∷ later else later

listed : (OspRecord → Text) → Query → List OspRecord → Page RecordListItem
unfolding slice_page list_item
listed compute_cid query filtered = record {
  items = map (list_item compute_cid) (slice_page (page_number query) (page_size query) filtered);
  page = page_number query;
  per_page = page_size query;
  total = length filtered;
}

-- `deriveRecordsPage`: none where the type is unknown, an `AtlasError`
pub derive_records_page :
    (OspRecord → Text) → List OspRecord → Option Text → Query → Option (Page RecordListItem)
unfolding listed of_type
derive_records_page compute_cid records none query = some (listed compute_cid query records)
derive_records_page compute_cid records (some type) query =
    if includes record_types type
    then some (listed compute_cid query (of_type type records))
    else none
