-- ===== src/Tee.antt =====
-- pkg/response-writer-tee/tee.go: a response writer that keeps what it writes, and passes it on to
-- a client unless the status is one that is to be held back.
pub mod Laws
use always_cache.Base.{ℕ, Bool, true, false, ◌&&◌, not, List, [], ◌∷◌, ◌++◌, ◌==◌, if◌then◌else◌}
use always_cache.Base.Int.{pos}
use always_cache.Go.Strings.{Str, codes}
use always_cache.Go.Conv.{format_uint}
use always_cache.Go.Header.{Header, add, values}
use always_cache.Go.Time.{Time}
use always_cache.Go.Http.{Platform}

-- What an http.ResponseWriter is told: a status with the header of that moment, and bytes.
pub data Sent : Type 0 where
  head : ℕ → Header → Sent
  bytes : Str → Sent

pub record Client : Type 0 where
  pub header : Header
  pub sent : List Sent

-- `forwards` is false where the field rw is nil; `client` is the writer behind it.
pub record ResponseSaver : Type 0 where
  pub forwards : Bool
  pub client : Client
  pub buffer : Str
  pub header : Header
  pub status : ℕ
  pub wrote_headers : Bool
  pub status_filter : ℕ
  pub created_at : Time

add_values : Header → Str → List Str → Header
add_values dst k [] = dst
add_values dst k (v ∷ vs) = add_values (add dst k v) k vs

unfoldable pub copy_header : Header → Header → Header
unfolding add_values
copy_header dst [] = dst
copy_header dst ((k, vs) ∷ src) = copy_header (add_values dst k vs) src

-- NewResponseSaver with a client and a status to hold back; 0 is no status.
unfoldable pub new_response_saver : Time → Client → ℕ → ResponseSaver
new_response_saver now client filter = record {
  forwards = true;
  client = client;
  buffer = [];
  header = [];
  status = 0;
  wrote_headers = false;
  status_filter = filter;
  created_at = now;
}

-- NewResponseSaver(nil)
unfoldable pub new_silent_saver : Time → ResponseSaver
unfolding new_response_saver
new_silent_saver now = record (new_response_saver now (record { header = []; sent = [] }) 0) {
  forwards = false;
}

send_head : Client → ℕ → Header → Client
send_head client code header =
    let h = copy_header client.header header in
    record client { header = h; sent = client.sent ++ head code h ∷ [] }

append_bytes : ResponseSaver → Str → ResponseSaver
append_bytes t b = record t {
  client =
      if t.forwards then record t.client { sent = t.client.sent ++ bytes b ∷ [] } else t.client;
  buffer = t.buffer ++ b;
}

module _ (platform : Platform) where
  -- "HTTP/1.1 %d %s\n", the fields and an empty line.
  unfoldable pub head_text : ℕ → Header → Str
  head_text code header =
      codes "HTTP/1.1 "
      ++ (format_uint code
          ++ (codes " "
              ++ (platform.status_text code
                  ++ (codes "\n" ++ (platform.header_text header ++ codes "\n")))))

  -- WriteHeader
  unfoldable pub write_header : ResponseSaver → ℕ → ResponseSaver
  unfolding send_head
  write_header t code =
      let forwards' = if code == t.status_filter then false else t.forwards in
      record t {
        forwards = forwards';
        client = if forwards' then send_head t.client code t.header else t.client;
        buffer = t.buffer ++ head_text code t.header;
        status = code;
        wrote_headers = true;
      }

  -- Write
  unfoldable pub write : ResponseSaver → Str → ResponseSaver
  unfolding append_bytes write_header
  write t b = append_bytes (if t.wrote_headers then t else write_header t 200) b

unfoldable pub updates : ResponseSaver → List Str
updates t = values t.header (codes "cache-update")

-- What a reverse proxy does with a response writer.
pub data Act : Type 0 where
  set_field : Str → Str → Act
  set_status : ℕ → Act
  put_bytes : Str → Act

unfoldable pub act : Platform → ResponseSaver → Act → ResponseSaver
unfolding write write_header
act platform t (set_field name v) = record t { header = add t.header name v }
act platform t (set_status code) = write_header platform t code
act platform t (put_bytes b) = write platform t b

unfoldable pub run : Platform → ResponseSaver → List Act → ResponseSaver
unfolding act
run platform t [] = t
run platform t (a ∷ rest) = run platform (act platform t a) rest
