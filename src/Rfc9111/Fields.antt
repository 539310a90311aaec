-- ===== src/Rfc9111/Fields.antt =====
-- rfc9111/3.1._storing-header-and-trailer-fields.go and FieldAbsent of section 4.1.
pub mod Laws
use always_cache.Base.{ℕ, Bool, true, false, List, [], ◌∷◌, ◌++◌, map, length, ◌==◌}
use always_cache.Go.Strings.{Str, codes, split, trim_space}
use always_cache.Go.Header.{Header, values, del}
use always_cache.Go.Http.{Request}

list_items : List Str → List Str
list_items [] = []
list_items (hdr ∷ rest) = map trim_space (split hdr (codes ",")) ++ list_items rest

unfoldable pub get_list_header : Header → Str → List Str
unfolding list_items
get_list_header header field = list_items (values header field)

unfoldable pub field_absent : Header → Str → Bool
field_absent fields name = length (values fields name) == 0

unfoldable pub del_all : List Str → Header → Header
del_all [] h = h
del_all (name ∷ names) h = del_all names (del h name)

-- The fields of one connection that section 7.6.1 of RFC 9110 takes off by name.
abbrev pub connection_fields : List Str
connection_fields =
    codes "Connection"
    ∷ codes "Proxy-Connection"
    ∷ codes "Keep-Alive"
    ∷ codes "TE"
    ∷ codes "Transfer-Encoding"
    ∷ codes "Upgrade"
    ∷ []

unfoldable pub storable_header : Header → Header
unfolding del_all
storable_header header =
    del_all connection_fields (del_all (get_list_header header (codes "Connection")) header)

unfoldable pub storable_trailer : Header → Header
storable_trailer trailer = []

unfoldable pub get_forward_request : Request → Request
unfolding del_all
get_forward_request req = record req {
  header =
      del_all connection_fields
        (del_all (get_list_header req.header (codes "Connection")) req.header);
}
