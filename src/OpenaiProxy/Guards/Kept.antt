-- ===== src/OpenaiProxy/Guards/Kept.antt =====
-- Which tool calls the guards keep.
use groovy_agent.Base.{
  member, IsUnique, none-IsUnique, IsUnique-append, AreSeen, AreSeen-append, ◌≡◌, refl, sym, ◌≤◌,
  Bool, true, false, ◌&&◌, Bytes, List, [], ◌∷◌, ◌++◌, Option, none, some, length, length-append,
  leb, leb_false→lt, arith, if◌then◌else◌, Bool-cases, inl, inr,
}
use mathlib.Core.List.{append-nil, append_assoc}
use groovy_agent.Json.{Items, nil, cons, Fields, as_object}
use groovy_agent.OpenaiProxy.Guards.{Settings, tool_call_key, keep_call, or_first, filter_calls}

-- No two calls have one key, where duplicates are to be dropped.
pub IsDistinct : Bool → List Fields → Type 0
IsDistinct true calls = IsUnique tool_call_key calls
IsDistinct false calls = Unit

AreKnown : Bool → List Bytes → List Fields → Type 0
AreKnown true seen calls = AreSeen tool_call_key seen calls
AreKnown false seen calls = Unit

with_object : Option Fields → List Fields → List Fields
with_object none rest = rest
with_object (some call) rest = call ∷ rest

pub objects_in : Items → List Fields
unfolding with_object
objects_in nil = []
objects_in (cons raw rest) = with_object (as_object (some raw)) (objects_in rest)

-- What the loop has kept so far.
record IsKept (s : Settings) (seen : List Bytes) (kept : List Fields) : Type 0 where
  short : length kept ≤ s.max_tool_calls_per_turn
  distinct : IsDistinct s.disable_duplicate_tool_calls kept
  all_seen : AreKnown s.disable_duplicate_tool_calls seen kept

IsDistinct-append :
    (b : Bool) (seen : List Bytes) (kept : List Fields) (call : Fields)
    → IsDistinct b kept
    → AreKnown b seen kept
    → (b && member seen (tool_call_key call)) ≡ false
    → IsDistinct b (kept ++ (call ∷ []))
      × AreKnown b (if b then tool_call_key call ∷ seen else seen) (kept ++ (call ∷ []))
unfolding IsDistinct AreKnown
IsDistinct-append false seen kept call d a h = (tt, tt)
IsDistinct-append true seen kept call d a h = (
  IsUnique-append tool_call_key seen kept call d a h,
  AreSeen-append tool_call_key seen kept call a,
)

one_more :
    (s : Settings) (seen : List Bytes) (kept : List Fields) (call : Fields)
    → IsKept s seen kept
    → leb s.max_tool_calls_per_turn (length kept) ≡ false
    → (s.disable_duplicate_tool_calls && member seen (tool_call_key call)) ≡ false
    → IsKept s
        (if s.disable_duplicate_tool_calls then tool_call_key call ∷ seen else seen)
        (kept ++ (call ∷ []))
one_more s seen kept call k below new =
    let d =
      IsDistinct-append s.disable_duplicate_tool_calls seen kept call k.distinct k.all_seen new in
    record {
      short = rw (length-append kept (call ∷ [])) (omega (arith, leb_false→lt _ _ below));
      distinct = d.0;
      all_seen = d.1;
    }

-- Where no reason is given, all calls that are objects are kept.
pub IsWhole : List Fields → Option Bytes → List Fields × Option Bytes → Type 0
IsWhole all none (kept, none) = kept ≡ all
IsWhole all (some first) (kept, none) = ⊥
IsWhole all reason (kept, some last) = Unit

-- What the guards leave of the calls `all`, when a reason may have been given before.
pub record IsGuarded (s : Settings) (all : List Fields) (reason : Option Bytes)
    (done : List Fields × Option Bytes) : Type 0 where
  pub short : length done.0 ≤ s.max_tool_calls_per_turn
  pub distinct : IsDistinct s.disable_duplicate_tool_calls done.0
  pub whole : IsWhole all reason done

module _ (s : Settings) where
  unaware :
      (all others : List Fields) (reason : Option Bytes) (first : Bytes)
      (done : List Fields × Option Bytes)
      → IsGuarded s all (some first) done
      → IsGuarded s others reason done
  unfolding IsWhole
  unaware all others reason first (kept, none) g = elim g.whole [ ]
  unaware all others none first (kept, some last) g = record {
    short = g.short;
    distinct = g.distinct;
    whole = tt;
  }
  unaware all others (some r) first (kept, some last) g = record {
    short = g.short;
    distinct = g.distinct;
    whole = tt;
  }

  or_first-some :
      (all others : List Fields) (reason : Option Bytes) (next : Bytes)
      (done : List Fields × Option Bytes)
      → IsGuarded s all (or_first reason next) done
      → IsGuarded s others reason done
  unfolding or_first
  or_first-some all others none next done g = unaware all others none next done g
  or_first-some all others (some r) next done g = unaware all others (some r) r done g

  limited :
      (all kept : List Fields) (reason : Option Bytes) (last : Bytes) (seen : List Bytes)
      → IsKept s seen kept
      → IsGuarded s all reason (kept, some last)
  unfolding IsWhole
  limited all kept none last seen k = record { short = k.short; distinct = k.distinct; whole = tt }
  limited all kept (some r) last seen k = record {
    short = k.short;
    distinct = k.distinct;
    whole = tt;
  }

  finished :
      (kept : List Fields) (reason : Option Bytes) (seen : List Bytes)
      → IsKept s seen kept
      → IsGuarded s (kept ++ []) reason (kept, reason)
  unfolding IsWhole
  finished kept none seen k = record {
    short = k.short;
    distinct = k.distinct;
    whole = sym (append-nil kept);
  }
  finished kept (some r) seen k = record { short = k.short; distinct = k.distinct; whole = tt }

  keep_call-IsGuarded :
      (next : List Bytes → List Fields → Option Bytes → List Fields × Option Bytes)
      (rest : List Fields) (raw : Option Fields) (seen : List Bytes) (kept : List Fields)
      (reason : Option Bytes)
      → IsKept s seen kept
      → ((seen : List Bytes) (kept : List Fields) (reason : Option Bytes)
          → IsKept s seen kept
          → IsGuarded s (kept ++ rest) reason (next seen kept reason))
      → IsGuarded s (kept ++ with_object raw rest) reason (keep_call s next raw seen kept reason)
  unfolding keep_call with_object
  keep_call-IsGuarded next rest none seen kept reason k later = later seen kept reason k
  keep_call-IsGuarded next rest (some call) seen kept reason k later =
      elim (Bool-cases (leb s.max_tool_calls_per_turn (length kept))) [
        | inl e ↦ rw e (limited _ kept reason _ seen k)
        | inr e ↦
            elim (Bool-cases (s.disable_duplicate_tool_calls && member seen (tool_call_key call))) [
              | inl f ↦ rw (e, f) (or_first-some _ _ reason _ _ (later seen kept _ k))
              | inr f ↦
                  rw (e, f, ← append_assoc kept (call ∷ []) rest)
                    (later _ (kept ++ (call ∷ [])) reason (one_more s seen kept call k e f))
            ]
      ]

  filter_calls-IsGuarded_from :
      (calls : Items) (seen : List Bytes) (kept : List Fields) (reason : Option Bytes)
      → IsKept s seen kept
      → IsGuarded s (kept ++ objects_in calls) reason (filter_calls s calls seen kept reason)
  unfolding filter_calls objects_in
  filter_calls-IsGuarded_from nil seen kept reason k = finished kept reason seen k
  filter_calls-IsGuarded_from (cons raw rest) seen kept reason k =
      keep_call-IsGuarded (filter_calls s rest) (objects_in rest) (as_object (some raw)) seen kept
        reason k (filter_calls-IsGuarded_from rest)

none-IsKept : (s : Settings) (b : Bool) → s.disable_duplicate_tool_calls ≡ b → IsKept s [] []
unfolding IsDistinct AreKnown
none-IsKept s true e = record {
  short = omega arith;
  distinct = rw e (none-IsUnique tool_call_key);
  all_seen = rw e tt;
}
none-IsKept s false e = record { short = omega arith; distinct = rw e tt; all_seen = rw e tt }

-- Of the tool calls of a reply the guards keep at most as many as the setting allows; where duplicates
-- are to be dropped, no two of them have one key, which is the name and the trimmed arguments; and
-- where the guards give no reason, they keep all calls that are objects, in their order.
pub filter_calls-IsGuarded :
    (s : Settings) (calls : Items)
    → IsGuarded s (objects_in calls) none (filter_calls s calls [] [] none)
filter_calls-IsGuarded s calls =
    filter_calls-IsGuarded_from s calls [] [] none (none-IsKept s _ refl)
