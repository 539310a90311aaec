-- ===== src/Serializer/Errors.antt =====
-- Bytes that are not what StoredResponseToBytes writes.
use always_cache.Base.{◌++◌, ◌≡◌, refl}
use always_cache.Go.Strings.{Str}
use always_cache.Go.Panic.{panics}
use always_cache.Serializer.{
  Wire, dashes, delim, response_of_parts, bytes_to_response, bytes_to_stored_response,
}
use always_cache.Serializer.Delimiter.{
  Omits, split-delim, split-delim_twice, split_whole, dashes-Omits,
}

module _ (wire : Wire) where
  -- Bytes without a delimiter make BytesToStoredResponse panic.
  pub bytes_to_stored_response-eq-panics :
      (b : Str) → Omits delim b → bytes_to_stored_response wire b ≡ panics
  unfolding bytes_to_stored_response bytes_to_response response_of_parts
  bytes_to_stored_response-eq-panics b h =
      rw (bytes_to_stored_response, bytes_to_response, split_whole b h, response_of_parts) refl

  -- A response whose text contains the delimiter is read up to the delimiter only, as if nothing
  -- stood behind it, if the request's text, and the response's before the delimiter, have no blank
  -- line before four dashes.
  pub bytes_to_stored_response_cut :
      (s t more : Str)
      → Omits dashes s
      → Omits dashes t
      → bytes_to_stored_response wire (s ++ (delim ++ (t ++ (delim ++ more))))
        ≡ bytes_to_stored_response wire (s ++ (delim ++ t))
  unfolding bytes_to_stored_response bytes_to_response response_of_parts
  bytes_to_stored_response_cut s t more h k =
      rw
        (
          bytes_to_stored_response,
          bytes_to_response,
          split-delim_twice s t more h k,
          split-delim s t h (dashes-Omits t k),
          response_of_parts,
        )
        refl
