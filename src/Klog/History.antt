-- ===== src/Klog/History.antt =====
-- The log of kernel/log.c keeps the last bytes of all that was written to it.
use mathlib.Core.List
use deanos.Prelude.{
  ℕ, List, ◌≡◌, ◌<◌, length, take, ◌+◌, get_or, suc, ap, ◌^◌, drop, ◌%◌, ◌++◌, arith, ◌-◌, ◌≢◌, ◌≤◌,
  ◌∷◌, zero, [], ◌∙◌, refl, if◌then◌else◌, length-append, ltb, length-drop, length-set, Bool-cases,
  ◌==◌, inl, sym, set, get_or-set_self, inr, get_or-set_ne, if_split, same_list, length-take,
  get_or-drop, get_or-take, get_or-last, get_or-snoc,
}
use deanos.Klog.{klog_read, read_from, klog, append_bytes, Log, klog_buf_sz, append_byte}

-- The ring holds the end of `written`, all bytes since the log was cleared.
pub record Holds (log : Log) (written : List ℕ) : Type 0 where
  pub ring : length log.buf ≡ klog_buf_sz
  pub all : log.head ≡ length written
  pub bounded : length written < 2 ^ 32
  pub kept :
      (i : ℕ)
      → i < length written
      → length written ≤ i + klog_buf_sz
      → get_or log.buf (i % klog_buf_sz) 0 ≡ get_or written i 0

other_place : (i j : ℕ) → i < j → j < i + 4096 → (j % 4096) ≢ (i % 4096)
other_place i j lt near e = absurd (omega arith)

append_byte-Holds :
    (c : ℕ) (log : Log) (written : List ℕ)
    → Holds log written
    → length written + 1 < 2 ^ 32
    → Holds (append_byte c log) (written ++ (c ∷ []))
append_byte-Holds c log written h small =
    let longer : length (written ++ (c ∷ [])) ≡ length written + 1 =
      length-append written (c ∷ []) in
    let place = log.head % klog_buf_sz in
    record {
      ring = length-set log.buf place c ∙ h.ring;
      all = omega (arith, longer, h.all);
      bounded = omega (arith, longer);
      kept = λ i lt near. elim (Bool-cases (i == length written)) [
        | inl last ↦
            let at : i ≡ length written = ground (arith, last) in
            let here : i % klog_buf_sz ≡ place = ap (λ (k : ℕ). k % klog_buf_sz) (at ∙ sym h.all) in
            ap (λ (k : ℕ). get_or (set log.buf place c) k 0) here
            ∙ get_or-set_self log.buf place c 0 (omega (arith, h.ring))
            ∙ sym (get_or-last written c i 0 at)
        | inr before ↦
            let lt' : i < length written = ground (arith, before, lt, longer) in
            let apart : place ≢ (i % klog_buf_sz) =
              other_place i log.head (omega (arith, lt', h.all))
                (omega (arith, near, longer, h.all)) in
            get_or-set_ne log.buf place (i % klog_buf_sz) c 0 apart
            ∙ h.kept i lt' (omega (arith, near, longer))
            ∙ sym (get_or-snoc written c i 0 lt')
      ];
    }

append_bytes-Holds :
    (s : List ℕ) (log : Log) (written : List ℕ)
    → Holds log written
    → length written + length s < 2 ^ 32
    → Holds (append_bytes s log) (written ++ s)
unfolding append_bytes
append_bytes-Holds [] log written h small = rw (List.append-nil written) h
append_bytes-Holds (c ∷ cs) log written h small =
    let next = append_byte-Holds c log written h (omega arith) in
    let joined : (written ++ (c ∷ [])) ++ cs ≡ written ++ (c ∷ cs) =
      List.append_assoc written (c ∷ []) cs in
    rw (← joined) (
      append_bytes-Holds cs (append_byte c log) (written ++ (c ∷ [])) next
        (omega (arith, length-append written (c ∷ []))))

-- Writing to the log adds the string and a newline to what was written, which the ring holds the end
-- of. Fewer than 2 ^ 32 bytes were written since the log was cleared.
pub klog-Holds :
    (s : List ℕ) (log : Log) (written : List ℕ)
    → Holds log written
    → length written + length s + 1 < 2 ^ 32
    → Holds (klog s log) (written ++ (s ++ (10 ∷ [])))
unfolding klog
klog-Holds s log written h small =
    let before = append_bytes-Holds s log written h (omega arith) in
    let joined : (written ++ s) ++ (10 ∷ []) ≡ written ++ (s ++ (10 ∷ [])) =
      List.append_assoc written s (10 ∷ []) in
    rw (← joined) (
      append_byte-Holds 10 (append_bytes s log) (written ++ s) before
        (omega (arith, length-append written s)))

read_from-length : (count start : ℕ) (buf : List ℕ) → length (read_from count start buf) ≡ count
unfolding read_from
read_from-length zero start buf = refl
read_from-length (suc n) start buf = ap suc (read_from-length n ((start + 1) % 2 ^ 32) buf)

read_from-at :
    (count start : ℕ) (buf : List ℕ) (i : ℕ)
    → i < count
    → start + i < 2 ^ 32
    → get_or (read_from count start buf) i 0 ≡ get_or buf ((start + i) % klog_buf_sz) 0
unfolding read_from
read_from-at zero start buf i h small = absurd (omega arith)
read_from-at (suc n) start buf zero h small =
    ap (λ (k : ℕ). get_or buf (k % klog_buf_sz) 0) (omega arith)
read_from-at (suc n) start buf (suc i) h small =
    let next : (start + 1) % 2 ^ 32 ≡ start + 1 = omega arith in
    let same : start + 1 + i ≡ start + suc i = omega arith in
    rw (next, ← same) (read_from-at n (start + 1) buf i (omega arith) (omega arith))

-- Reading the log gives the first bytes, up to the length of the buffer, of the last 4096 bytes that
-- were written, or of all of them when there were fewer.
pub klog_read-Holds :
    (out_len : ℕ) (log : Log) (written : List ℕ)
    → Holds log written
    → klog_read out_len log ≡ take out_len (drop (length written - klog_buf_sz) written)
unfolding klog_read
klog_read-Holds out_len log written h =
    let window = if ltb klog_buf_sz log.head then klog_buf_sz else log.head in
    let start = log.head - window in
    let count = if ltb window out_len then window else out_len in
    let kept = drop (length written - klog_buf_sz) written in
    let is_start : start ≡ length written - klog_buf_sz = ground (arith, h.all) in
    let kept_length : length kept ≡ window =
      ground (arith, h.all, length-drop (length written - klog_buf_sz) written) in
    if_split (λ (r : List ℕ). r ≡ take out_len kept) (out_len == 0)
      (λ none_wanted. let no_room : out_len ≡ 0 = ground (arith, none_wanted) in rw no_room refl)
      (λ some_wanted.
        same_list 0 (read_from count start log.buf) (take out_len kept)
          (read_from-length count start log.buf
            ∙ ground (arith, length-take out_len kept, kept_length))
          (λ i lt.
            let lt' : i < count = omega (arith, read_from-length count start log.buf) in
            let within : (i < out_len) × (i < window) = ground (arith, lt') in
            let inside : start + i < length written = ground (arith, h.all, within) in
            read_from-at count start log.buf i lt' (omega (arith, inside, h.bounded))
            ∙ h.kept (start + i) inside (omega (arith, is_start))
            ∙ ap (λ (k : ℕ). get_or written (k + i) 0) is_start
            ∙ sym (get_or-drop (length written - klog_buf_sz) written i 0)
            ∙ sym (get_or-take out_len kept i 0 within.0)))
