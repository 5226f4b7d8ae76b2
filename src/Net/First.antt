-- ===== src/Net/First.antt =====
-- The first of a list that has a gateway, for the searches of `get_default_gateway` of src/base/net.c.
use knetutils.Base.{ℕ}
use knetutils.Base.{◌≡◌, refl, ap, ◌⊎◌, inl, inr}
use knetutils.Base.{Option, none, some, List, [], ◌∷◌, ◌++◌}

module _ {A : Type 0} (has : A → ℕ → Type 0) where
  -- None of the items has a gateway.
  abbrev pub NoneHas : List A → Type 0
  NoneHas [] = Unit
  NoneHas (x ∷ xs) = ((gw : ℕ) → has x gw → ⊥) × NoneHas xs

  -- The items are `before`, none of which has a gateway, one that has the gateway `gw`, and `after`.
  pub record IsFirst (xs : List A) (gw : ℕ) : Type 0 where
    pub before : List A
    pub item : A
    pub after : List A
    pub split : xs ≡ before ++ (item ∷ after)
    pub none_before : NoneHas before
    pub at_item : has item gw

  -- What a search through the items may give.
  abbrev pub IsSearched : List A → Option ℕ → Type 0
  IsSearched xs out = ((gw : ℕ) × (out ≡ some gw) × IsFirst xs gw) ⊎ ((out ≡ none) × NoneHas xs)

  pub search_ends : IsSearched [] none
  search_ends = inr (refl, tt)

  pub search_hits : (x : A) (xs : List A) (gw : ℕ) → has x gw → IsSearched (x ∷ xs) (some gw)
  search_hits x xs gw h = inl (
    gw,
    refl,
    record { before = []; item = x; after = xs; split = refl; none_before = tt; at_item = h },
  )

  pub search_passes :
      (x : A) (xs : List A) (out : Option ℕ)
      → ((gw : ℕ) → has x gw → ⊥)
      → IsSearched xs out
      → IsSearched (x ∷ xs) out
  search_passes x xs out miss (inr (missed, others)) = inr (missed, (miss, others))
  search_passes x xs out miss (inl (gw, found, f)) = inl (
    gw,
    found,
    record {
      before = x ∷ f.before;
      item = f.item;
      after = f.after;
      split = ap (λ l. x ∷ l) f.split;
      none_before = (miss, f.none_before);
      at_item = f.at_item;
    },
  )
