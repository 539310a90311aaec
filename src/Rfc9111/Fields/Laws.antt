-- ===== src/Rfc9111/Fields/Laws.antt =====
-- Which fields storableHeader and GetForwardRequest keep.
use always_cache.Base.{Bool, List, any}
use always_cache.Go.Strings.{Str, same}
use always_cache.Go.Header.{Header, canonical}

-- A list of names has a name, up to the case of its letters.
abbrev pub names_field : Str → List Str → Bool
names_field field names = any (λ name. same (canonical name) (canonical field)) names
