-- ===== src/Wire.antt =====
-- The messages of xcom.c on a socket: a fixed header, the names of the interface and the method with the
-- method's signature, and the body. `interfaces` gives the interface at an address.
pub mod Strings
pub mod Names
pub mod RoundTrip
use casycom.Base.{
  ℕ, zero, suc, ◌+◌, ◌-◌, ◌%◌, ◌^◌, Bool, true, false, not, ◌&&◌, List, [], ◌∷◌, ◌++◌, Option, none,
  some, ltb, leb, ◌==◌, if◌then◌else◌, length, get_elem?, get_or, take, drop, replicate, ceilg,
}
use casycom.Base.Chain.{◌>>=◌, ◌>>◌, assert}
use casycom.Stm.{le_bytes, le_value}
use casycom.Msg.{Interface, Msg, no_fd_in_message, method_invalid, message_body_alignment, oid_last}
use casycom.Registry.{same_name}

abbrev pub max_msg_header_size : ℕ
max_msg_header_size = 255 - 8

-- `sizeof(ExtMsgHeaderBuf)`, a multiple of the alignment of its header.
abbrev pub header_buf_size : ℕ
header_buf_size = 248

abbrev pub extid_com : ℕ
extid_com = 0

abbrev pub extid_client_base : ℕ
extid_client_base = extid_com

abbrev pub extid_client_last : ℕ
extid_client_last = extid_client_base + oid_last

abbrev pub extid_server_base : ℕ
extid_server_base = extid_client_last + 1

abbrev pub extid_server_last : ℕ
extid_server_last = extid_server_base + oid_last

pub record ExtMsgHeader : Type 0 where
  pub sz : ℕ
  pub extid : ℕ
  pub fdoffset : ℕ
  pub hsz : ℕ

-- `sizeof(ExtMsgHeader)`.
abbrev pub header_size : ℕ
header_size = 8

-- The fields in memory, and read from there.
unfoldable pub header_bytes : ExtMsgHeader → List ℕ
unfolding le_bytes
header_bytes h =
    le_bytes 4 h.sz ++ (le_bytes 2 h.extid ++ (le_bytes 1 h.fdoffset ++ le_bytes 1 h.hsz))

unfoldable pub header_at : List ℕ → ExtMsgHeader
header_at d = record {
  sz = le_value (take 4 d);
  extid = le_value (take 2 (drop 4 d));
  fdoffset = le_value (take 1 (drop 6 d));
  hsz = le_value (take 1 (drop 7 d));
}

-- `Extern_validate_message_header`.
unfoldable pub validate_message_header : ExtMsgHeader → Bool
validate_message_header h =
    if not (h.hsz % message_body_alignment == 0)
    then false
    else if not (h.sz % message_body_alignment == 0)
    then false
    else not (not (h.fdoffset == no_fd_in_message) && ltb h.sz (h.fdoffset + 4))

-- The name and the signature of a method, each with its terminator.
abbrev pub method_bytes : List ℕ × List ℕ → List ℕ
method_bytes m = m.0 ++ (0 ∷ (m.1 ++ (0 ∷ [])))

abbrev pub name_bytes : Interface → List ℕ × List ℕ → List ℕ
name_bytes iid m = iid.name ++ (0 ∷ method_bytes m)

-- The part of `Extern_writing` that marshals the header: `hsz` bytes.
unfoldable pub marshal : (ℕ → Interface) → Msg → Option (List ℕ)
unfolding header_bytes ceilg
marshal interfaces msg = do
  let iid = interfaces msg.h.interface
  m ← get_elem? iid.method msg.imethod
  let phstr = name_bytes iid m
  assert (leb (header_size + length phstr) max_msg_header_size)
  let padded = ceilg (length phstr) message_body_alignment
  let h : ExtMsgHeader = record {
    sz = ceilg msg.size message_body_alignment;
    extid = msg.extid;
    fdoffset = msg.fdoffset;
    hsz = header_size + padded;
  }
  some (header_bytes h ++ (phstr ++ replicate (padded - length phstr) 0))

-- `strlen` and `strnext` in a block; behind its end stands nothing that the source may read.
unfoldable pub strlen : List ℕ → ℕ
strlen [] = 0
strlen (b ∷ d) = if b == 0 then 0 else strlen d + 1

unfoldable pub strnext : List ℕ → ℕ → ℕ
unfolding strlen
strnext d p = p + strlen (drop p d) + 1

-- The loop of `Extern_lookup_in_msg_method` over the methods from index `mi` on.
unfoldable pub method_from : List (List ℕ × List ℕ) → ℕ → List ℕ → ℕ
unfolding same_name
method_from [] mi name = method_invalid
method_from (m ∷ ms) mi name =
    let rest = method_from ms (mi + 1) name in if same_name (method_bytes m) name then mi else rest

-- `Extern_lookup_in_msg_method`, for the header buffer `d`.
unfoldable pub lookup_in_msg_method : List ℕ → Interface → ℕ
unfolding strnext header_at method_from
lookup_in_msg_method d iid =
    let hend = (header_at d).hsz in
    let mname = strnext d header_size in
    let msig = strnext d mname in
    let mend = strnext d msig in
    if leb hend mname
    then method_invalid
    else if leb hend msig
    then method_invalid
    else if ltb hend mend
    then method_invalid
    else method_from iid.method 0 (take (mend - mname) (drop mname d))

-- The name that `Extern_lookup_in_msg_interface` looks up when `h_read` bytes of the header are read;
-- the inner `none` is its null for names without a terminator.
unfoldable pub name_in_header : List ℕ → ℕ → Option (Option (List ℕ))
unfolding strlen
name_in_header d h_read = do
  assert (ltb h_read max_msg_header_size && leb (header_size + 5) h_read)
  some (
      if get_or d (h_read - 1) 0 == 0
      then some (take (strlen (drop header_size d)) (drop header_size d))
      else none)
