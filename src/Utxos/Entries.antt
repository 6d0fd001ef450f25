-- ===== src/Utxos/Entries.antt =====
-- What the loops over the entries of one script do to the entry of an outpoint.
use chronik.Prelude.{◌≡◌, Bool, Option, none, some, List, [], ◌∷◌, any, arith, subst, if◌then◌else◌}
use chronik.Std.Ord.{◌==◌}
use chronik.Std.SortedVec.{Search, found, absent, IsSorted}
use chronik.Std.Keyed.{
  lookup, or_else, insert_missing, remove_present, insert_missing-IsSorted, remove_present-IsSorted,
  lookup-insert_missing, lookup-remove_present,
}
use chronik.SlpBatch.{OutpointEntry, entry_ord}
use chronik.Utxos.Defs.{UtxoEntry, UtxoData, data_of, outpoints, search_entry}
use chronik.Utxos.Insert.{changed, insert_new, remove_old, then_all, insert_all, remove_all}

-- The entry of an outpoint.
abbrev pub entry_at : OutpointEntry → List UtxoData → Option UtxoData
entry_at = lookup (λ d. d.outpoint)

-- What the first of the new entries stores for an outpoint.
unfoldable pub made : OutpointEntry → List UtxoEntry → Option UtxoData
made o [] = none
made o (e ∷ es) = if o == e.outpoint then some (data_of e) else made o es

abbrev pub mentions : OutpointEntry → List OutpointEntry → Bool
mentions o = any (λ s. o == s)

-- The entries are in order, and hold at each outpoint what `at` says.
abbrev pub Holds : (OutpointEntry → Option UtxoData) → List UtxoData → Type 0
Holds at entries = IsSorted (outpoints entries) × ((o : OutpointEntry) → entry_at o entries ≡ at o)

abbrev pub insert_step : UtxoEntry → List UtxoData → List UtxoData
insert_step e entries = insert_missing (data_of e) entries (search_entry e.outpoint entries)

abbrev pub remove_step : OutpointEntry → List UtxoData → List UtxoData
remove_step o entries = remove_present entries (search_entry o entries)

pub insert_step-Holds :
    (e : UtxoEntry) (es : List UtxoEntry) (at : OutpointEntry → Option UtxoData)
    (entries : List UtxoData)
    → Holds at entries
    → Holds (λ o. or_else (at o) (made o (e ∷ []))) (insert_step e entries)
unfolding made data_of
insert_step-Holds e es at entries h = (
  insert_missing-IsSorted (λ d. d.outpoint) (data_of e) entries h.0,
  λ o. ground (arith, lookup-insert_missing (λ d. d.outpoint) o (data_of e) entries h.0, h.1 o),
)

pub remove_step-Holds :
    (s : OutpointEntry) (at : OutpointEntry → Option UtxoData) (entries : List UtxoData)
    → Holds at entries
    → Holds (λ o. if o == s then none else at o) (remove_step s entries)
remove_step-Holds s at entries h = (
  remove_present-IsSorted (λ d. d.outpoint) s entries h.0,
  λ o. ground (arith, lookup-remove_present (λ d. d.outpoint) s o entries h.0, h.1 o),
)

-- Functions that agree at each outpoint describe the same entries.
pub Holds-agree :
    (at other : OutpointEntry → Option UtxoData) (entries : List UtxoData)
    → ((o : OutpointEntry) → at o ≡ other o)
    → Holds at entries
    → Holds other entries
Holds-agree at other entries e h = (h.0, λ o. ground (arith, h.1 o, e o))

insert_new-changed :
    (e : UtxoEntry) (es : List UtxoEntry) (entries out : List UtxoData) (r : Search)
    → then_all (insert_all es) (insert_new (data_of e) entries r) ≡ changed out
    → insert_all es (insert_missing (data_of e) entries r) ≡ changed out
insert_new-changed e es entries out (absent i) h = h
insert_new-changed e es entries out (found i) h = ground (arith, h)

remove_old-changed :
    (s : OutpointEntry) (os : List OutpointEntry) (entries out : List UtxoData) (r : Search)
    → then_all (remove_all os) (remove_old s entries r) ≡ changed out
    → remove_all os (remove_present entries r) ≡ changed out
remove_old-changed s os entries out (found i) h = h
remove_old-changed s os entries out (absent i) h = ground (arith, h)

changed_same : (entries out : List UtxoData) → changed entries ≡ changed out → entries ≡ out
changed_same entries out e = ground (arith, e)

pub insert_all-Holds :
    (es : List UtxoEntry) (at : OutpointEntry → Option UtxoData) (entries out : List UtxoData)
    → insert_all es entries ≡ changed out
    → Holds at entries
    → Holds (λ o. or_else (at o) (made o es)) out
unfolding insert_all made data_of
insert_all-Holds [] at entries out e h =
    subst (Holds (λ o. or_else (at o) none)) (changed_same entries out e)
      (Holds-agree at (λ o. or_else (at o) none) entries (λ o. ground arith) h)
insert_all-Holds (u ∷ es) at entries out e h =
    Holds-agree (λ o. or_else (or_else (at o) (made o (u ∷ []))) (made o es))
      (λ o. or_else (at o) (made o (u ∷ es))) out (λ o. ground arith)
      (insert_all-Holds es (λ o. or_else (at o) (made o (u ∷ []))) (insert_step u entries) out
        (insert_new-changed u es entries out (search_entry u.outpoint entries) e)
        (insert_step-Holds u es at entries h))

pub remove_all-Holds :
    (os : List OutpointEntry) (at : OutpointEntry → Option UtxoData) (entries out : List UtxoData)
    → remove_all os entries ≡ changed out
    → Holds at entries
    → Holds (λ o. if mentions o os then none else at o) out
unfolding remove_all
remove_all-Holds [] at entries out e h = subst (Holds at) (changed_same entries out e) h
remove_all-Holds (s ∷ os) at entries out e h =
    Holds-agree (λ o. if mentions o os then none else (if o == s then none else at o))
      (λ o. if mentions o (s ∷ os) then none else at o) out (λ o. ground arith)
      (remove_all-Holds os (λ o. if o == s then none else at o) (remove_step s entries) out
        (remove_old-changed s os entries out (search_entry s entries) e)
        (remove_step-Holds s at entries h))
