-- ===== src/Encoding/Infos.antt =====
-- pkg/encoding: the bytes of a dag info, and of a pair of them.
use consensus_go.Base.{
  ℕ, ◌+◌, ◌*◌, ◌%◌, ◌^◌, ◌≡◌, ◌<◌, refl, ◌∙◌, false, List, [], ◌++◌, Option, none, some, arith,
  ◌==◌, length, length-append, append_assoc, All,
}
use consensus_go.Base.Outcome.{ok}
use consensus_go.Gomel.Preunit.{
  max_u32, put_uint, height_bytes, length-put_uint, length-height_bytes,
}
use consensus_go.Encoding.Wire.{fill_exact, read_full-append, uint-put_uint}
use consensus_go.Encoding.Encoder.{
  DagInfo, dag_info_data, encode_dag_info, buffer_write, write_dag_infos,
}
use consensus_go.Encoding.Decoder.{decode_dag_info, read_dag_infos}
use consensus_go.Encoding.Crowns.{IsHeight, joined-height_fields, decode_heights-height_bytes}

-- A dag info fit for the wire; a missing one always is.
abbrev pub IsWireInfo : Option DagInfo → Type 0
IsWireInfo none = Unit
IsWireInfo (some info) =
    (info.epoch < max_u32) × (length info.heights < 16383) × All IsHeight info.heights

unfoldable pub info_bytes : Option DagInfo → List ℕ
info_bytes none = put_uint 4 max_u32
info_bytes (some info) =
    put_uint 4 info.epoch ++ (put_uint 2 (length info.heights) ++ height_bytes info.heights)

dag_info_data-info_bytes :
    (info : Option DagInfo) → IsWireInfo info → dag_info_data info ≡ ok (info_bytes info)
unfolding dag_info_data info_bytes
dag_info_data-info_bytes none v = refl
dag_info_data-info_bytes (some info) (ve, vl, vh) =
    let n : ℕ = length info.heights in
    let small : n % 2 ^ 16 ≡ n = omega arith in
    let size : (4 + 2 + n * 4) % 2 ^ 16 ≡ 4 + 2 + n * 4 = omega arith in
    let fits : info.epoch % 2 ^ 32 ≡ info.epoch = omega arith in
    rw (small, size, fits)
      (fill_exact _ _ (
          rw (joined-height_fields info.heights) (
            omega (
              arith,
              length-append (put_uint 4 info.epoch) (put_uint 2 n ++ height_bytes info.heights),
              length-append (put_uint 2 n) (height_bytes info.heights),
              length-put_uint 4 info.epoch,
              length-put_uint 2 n,
              length-height_bytes info.heights,
            )))
        ∙ rw (joined-height_fields info.heights) refl)

decode_dag_info-info_bytes :
    (info : Option DagInfo) (rest : List ℕ)
    → IsWireInfo info
    → decode_dag_info (info_bytes info ++ rest) ≡ ok (info, rest)
unfolding decode_dag_info info_bytes
decode_dag_info-info_bytes none rest v =
    rw (read_full-append 4 (put_uint 4 max_u32) rest (length-put_uint 4 _))
      (rw (uint-put_uint 4 max_u32 (omega arith)) refl)
decode_dag_info-info_bytes (some info) rest (ve, vl, vh) =
    let n : ℕ = length info.heights in
    let differs : (info.epoch == max_u32) ≡ false = ground arith in
    rw
      (
        append_assoc (put_uint 4 info.epoch) (put_uint 2 n ++ height_bytes info.heights) rest,
        append_assoc (put_uint 2 n) (height_bytes info.heights) rest,
      )
      (rw (read_full-append 4 (put_uint 4 info.epoch) _ (length-put_uint 4 _)) (
        rw (uint-put_uint 4 info.epoch (omega arith)) (
          rw differs (
            rw (read_full-append 2 (put_uint 2 n) _ (length-put_uint 2 _)) (
              rw (uint-put_uint 2 n (omega arith))
                (rw (decode_heights-height_bytes info.heights rest vh) refl))))))

-- Two dag infos fit for the wire, either of which may be missing, are read back by ReadDagInfos
-- as WriteDagInfos wrote them, and nothing of what follows them is read.
pub read_dag_infos-write_dag_infos :
    (a b : Option DagInfo) (rest : List ℕ)
    → IsWireInfo a
    → IsWireInfo b
    → (bs : List ℕ) × (write_dag_infos buffer_write a b [] ≡ ok bs)
      × (read_dag_infos (bs ++ rest) ≡ ok ((a, b), rest))
unfolding write_dag_infos read_dag_infos encode_dag_info
read_dag_infos-write_dag_infos a b rest va vb = (
  info_bytes a ++ info_bytes b,
  rw (dag_info_data-info_bytes a va) (rw (dag_info_data-info_bytes b vb) refl),
  rw (append_assoc (info_bytes a) (info_bytes b) rest) (
      rw (decode_dag_info-info_bytes a (info_bytes b ++ rest) va)
        (rw (decode_dag_info-info_bytes b rest vb) refl)),
)
