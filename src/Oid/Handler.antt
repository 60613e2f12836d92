-- ===== src/Oid/Handler.antt =====
-- The end of tapQueryInformation, and the entry points AdapterOidRequest and AdapterDirectOidRequest
-- of src/oidrequest.c.
use tap_windows.Base.{ℕ, List, leb, if◌then◌else◌, length, take, write_at}
use tap_windows.Ndis.{NdisStatus}
use tap_windows.Adapter.{Adapter, success, invalid_length, not_supported, buffer_too_short}
use tap_windows.Oid.{
  Oid, OidRequest, RequestType, Outcome, set_information_of, xmit_ok, rcv_ok, set_information,
  query_information, query_statistics, method,
}
use tap_windows.Oid.Query.{System, Reply, query_oid, info, in_place, nothing, refused, too_small}

-- "We should always report that only 8 bytes are required"
unfoldable pub report_eight : OidRequest → Oid → OidRequest
report_eight r xmit_ok = record r { bytes_needed = 8 }
report_eight r rcv_ok = record r { bytes_needed = 8 }
report_eight r _ = r

-- A successful answer of `len` bytes, with the buffer that it leaves.
unfoldable pub answer_of : OidRequest → ℕ → List ℕ → NdisStatus × OidRequest
answer_of r len buffer =
    if leb len (length r.information_buffer)
    then (success, record r { information_buffer = buffer; bytes_written = len })
    else (buffer_too_short, record r { bytes_needed = len })

-- The end of tapQueryInformation
unfoldable pub finish_query : OidRequest → Reply → NdisStatus × OidRequest
finish_query r (info bytes len) = answer_of r len (write_at r.information_buffer 0 (take len bytes))
finish_query r (in_place bytes len) =
    let written = record r { information_buffer = write_at r.information_buffer 0 bytes } in
    answer_of written len written.information_buffer
finish_query r (nothing len) = answer_of r len r.information_buffer
finish_query r (refused status) = (status, r)
finish_query r (too_small needed) = (invalid_length, record r { bytes_needed = needed })

-- tapQueryInformation
unfoldable pub query_information_of : System → Adapter → OidRequest → NdisStatus × OidRequest
query_information_of system a r =
    finish_query (report_eight r r.oid) (query_oid system a (length r.information_buffer) r.oid)

-- AdapterOidRequest, by the type of the request
unfoldable pub oid_request_of : System → Adapter → OidRequest → RequestType → Outcome
oid_request_of system a r set_information = set_information_of a r
oid_request_of system a r query_information =
    let answer = query_information_of system a r in (answer.0, answer.1, a)
oid_request_of system a r query_statistics =
    let answer = query_information_of system a r in (answer.0, answer.1, a)
oid_request_of system a r method = (not_supported, r, a)

unfoldable pub adapter_oid_request : System → Adapter → OidRequest → Outcome
adapter_oid_request system a r = oid_request_of system a r r.request_type

-- AdapterDirectOidRequest
unfoldable pub adapter_direct_oid_request : Adapter → OidRequest → NdisStatus
adapter_direct_oid_request a r = not_supported
