-- ===== src/SdpWin.antt =====
-- `rfcomm::sdp` of src/sdp_win.cpp, the Windows build: the registration of a service and the search
-- for the channel of a remote service. Winsock is the interface of SdpWin/System.antt.
pub mod System
pub mod Sessions
use simple_rfcomm.Prelude.{
  ℕ, ◌%◌, Option, none, some, Bool, true, false, ◌==◌, ◌+◌, map, ◌&&◌, List, [], ◌∷◌, ◌++◌, ltb,
  if◌then◌else◌,
}
use simple_rfcomm.Prelude.Int.{ℤ, pos, is_zero}
use simple_rfcomm.Address.{Address, to_string}
use simple_rfcomm.Uuid.{Uuid}
use simple_rfcomm.Platform.{Guid, uuid_to_guid}
use System.{
  Service, rnrservice_register, rnrservice_delete, QueryResult, Winsock, WinAction, pure, ◌>>=◌,
  ◌>>◌, sys_set_service, sys_lookup_begin, sys_lookup_next, sys_last_error, sys_lookup_end,
}

-- The members of `Registration::Impl`: the query with what it points to, and the flag.
pub record WinRegistration : Type 0 where
  pub qs : Service
  pub registered : Bool

unfoldable pub is_registered : WinRegistration → Bool
is_registered reg = reg.registered

-- WSAEFAULT of winerror.h: the buffer is too small.
abbrev pub is_wsaefault : ℤ → Bool
is_wsaefault (pos n) = n == 10014
is_wsaefault _ = false

-- A `char`, which is signed, as a wide character of 16 bits.
abbrev pub wide_char : ℕ → ℕ
wide_char c = if ltb c 128 then c else c + 65280

-- std::wstring(text.begin(), text.end())
abbrev pub wide : List ℕ → List ℕ
wide text = map wide_char text

-- The address in parentheses.
abbrev pub context_of : Address → List ℕ
context_of target = 40 ∷ (wide (to_string target) ++ 41 ∷ [])

-- The channel of an answer; the port is cast to a byte.
unfoldable pub channel_found : ℤ → QueryResult → Option ℕ
channel_found res results =
    if is_zero res && ltb 0 results.number_of_addrs
    then (elim results.csa_buffer [
      | none ↦ none
      | some remote ↦ elim remote [ none ↦ none | some port ↦ some (port % 256) ]
    ])
    else none

module _ (ws : Winsock) where
  -- `unregister`, which the destructor runs too.
  unfoldable pub unregister : WinRegistration → WinAction ws.World WinRegistration
  unregister reg =
      if reg.registered
      then (do
        sys_set_service ws reg.qs rnrservice_delete
        pure (record reg { registered = false }))
      else pure reg

  -- `none` for the null pointer; a registration that failed is destroyed.
  unfoldable pub create : ℕ → Uuid → List ℕ → WinAction ws.World (Option WinRegistration)
  create channel uuid service_name = do
    let impl : WinRegistration = record {
      qs = record {
        instance_name = wide service_name;
        class_id = uuid_to_guid uuid;
        port = channel;
      };
      registered = false;
    }
    ret ← sys_set_service ws impl.qs rnrservice_register
    if is_zero ret
        then pure (some (record impl { registered = true }))
        else do unregister impl; pure none

  -- The second try with the size that the first has asked for.
  unfoldable pub next_result : ℕ → WinAction ws.World (ℤ × QueryResult)
  next_result lookup = do
    (res, buffer_len, results) ← sys_lookup_next ws lookup 4096
    if is_zero res then pure (res, results) else do
      error ← sys_last_error ws
      if is_wsaefault error && ltb 4096 buffer_len
          then (do
            (res', _, results') ← sys_lookup_next ws lookup buffer_len
            pure (res', results'))
          else pure (res, results)

  unfoldable pub resolve_channel : Address → Uuid → WinAction ws.World (Option ℕ)
  resolve_channel target uuid = do
    (status, lookup) ← sys_lookup_begin ws (uuid_to_guid uuid) (context_of target)
    if is_zero status
        then (do
          (res, results) ← next_result lookup
          sys_lookup_end ws lookup
          pure (channel_found res results))
        else pure none
