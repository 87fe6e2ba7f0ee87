-- ===== src/Klog.antt =====
-- kernel/log.c: the ring of the bytes of the kernel log. The echo to the terminal and the serial port is
-- left out. `head` is a size_t of 32 bits.
pub mod History
mod Examples
use deanos.Prelude.{
  ℕ, List, ◌∷◌, set, [], if◌then◌else◌, suc, ◌%◌, ltb, ◌-◌, get_or, ◌+◌, ◌^◌, ◌==◌, zero,
}

abbrev pub klog_buf_sz : ℕ
klog_buf_sz = 4096

pub record Log : Type 0 where
  pub buf : List ℕ
  pub head : ℕ

-- `buf[head % KLOG_BUF_SZ] = s[i]; head++;`
abbrev pub append_byte : ℕ → Log → Log
append_byte c log = record {
  buf = set log.buf (log.head % klog_buf_sz) c;
  head = (log.head + 1) % 2 ^ 32;
}

unfoldable pub append_bytes : List ℕ → Log → Log
append_bytes [] log = log
append_bytes (c ∷ cs) log = append_bytes cs (append_byte c log)

-- The string and a newline.
unfoldable pub klog : List ℕ → Log → Log
unfolding append_bytes
klog s log = append_byte 10 (append_bytes s log)

-- The loop of `klog_read`: `count` bytes from the place `start` on.
unfoldable pub read_from : (count start : ℕ) → List ℕ → List ℕ
read_from zero start buf = []
read_from (suc n) start buf =
    get_or buf (start % klog_buf_sz) 0 ∷ read_from n ((start + 1) % 2 ^ 32) buf

-- The bytes that are copied to `out`; the result of the call is their number.
unfoldable pub klog_read : (out_len : ℕ) → Log → List ℕ
unfolding read_from
klog_read out_len log =
    let window = if ltb klog_buf_sz log.head then klog_buf_sz else log.head in
    let start = log.head - window in
    let count = if ltb window out_len then window else out_len in
    if out_len == 0 then [] else read_from count start log.buf

abbrev pub klog_clear : Log → Log
klog_clear log = record log { head = 0 }
