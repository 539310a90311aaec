-- ===== src/Go/Header/Laws.antt =====
-- What a header holds after a write.
use always_cache.Base.{List, [], ◌∷◌, ◌++◌, if◌then◌else◌, ◌≡◌, refl, arith}
use always_cache.Go.Strings.{Str, same}
use always_cache.Go.Strings.Laws.{same_iff, same_self}
use always_cache.Go.Header.{Header, canonical, lookup, store, delete, values, get, set, add, del}

lookup-store :
    (j k : Str) (vs : List Str) (h : Header)
    → lookup j (store k vs h) ≡ (if same k j then vs else lookup j h)
unfolding lookup store
lookup-store j k vs [] = refl
lookup-store j k vs ((i, ws) ∷ h) =
    ground (arith, same_iff i k, same_iff i j, same_iff k j, lookup-store j k vs h)

lookup-delete :
    (j k : Str) (h : Header) → lookup j (delete k h) ≡ (if same k j then [] else lookup j h)
unfolding lookup delete
lookup-delete j k [] = ground arith
lookup-delete j k ((i, ws) ∷ h) =
    ground (arith, same_iff i k, same_iff i j, same_iff k j, lookup-delete j k h)

module _ (h : Header) (name other : Str) where
  pub values-set :
      (v : Str)
      → values (set h name v) other
        ≡ (if same (canonical name) (canonical other) then v ∷ [] else values h other)
  unfolding values set
  values-set v = lookup-store (canonical other) (canonical name) (v ∷ []) h

  pub values-add :
      (v : Str)
      → values (add h name v) other ≡ (
          if same (canonical name) (canonical other)
          then values h name ++ v ∷ []
          else values h other)
  unfolding values add
  values-add v = lookup-store (canonical other) (canonical name) _ h

  pub values-del :
      values (del h name) other
      ≡ (if same (canonical name) (canonical other) then [] else values h other)
  unfolding values del
  values-del = lookup-delete (canonical other) (canonical name) h

  pub get-set :
      (v : Str)
      → get (set h name v) other
        ≡ (if same (canonical name) (canonical other) then v else get h other)
  unfolding get
  get-set v = ground (arith, values-set v)

pub get-set_self : (h : Header) (name v : Str) → get (set h name v) name ≡ v
get-set_self h name v = rw (get-set h name name v, same_self (canonical name))
