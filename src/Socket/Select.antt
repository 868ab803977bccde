-- ===== src/Socket/Select.antt =====
-- `select`. The sets are `none` for a null pointer, and a timeout is its seconds and microseconds.
use arduino_spider_l3s_libra.Base.{
  ℕ, ◌==◌, ◌&&◌, ◌||◌, not, ltb, List, [], ◌∷◌, Option, none, some, if◌then◌else◌, Result, ok,
  ◌>>=◌, u16, is_nonneg32,
}
use arduino_spider_l3s_libra.Stream.{stream_to_uint32}
use arduino_spider_l3s_libra.Driver.Opcode
use arduino_spider_l3s_libra.Socket.{Host, with_errno, uint32s_to_stream, command}

-- A timeout below SELECT_TIMEOUT_MIN_MICRO_SECONDS is raised in place; `tv_usec` is signed.
unfoldable pub raise_timeout : ℕ × ℕ → ℕ × ℕ
raise_timeout (seconds, micros) =
    if seconds == 0 && (ltb micros 5000 || not (is_nonneg32 micros))
    then (seconds, 5000)
    else (seconds, micros)

abbrev pub raised : Option (ℕ × ℕ) → Option (ℕ × ℕ)
raised none = none
raised (some t) = some (raise_timeout t)

abbrev pub timeout_args : Option (ℕ × ℕ) → List ℕ
timeout_args none = []
timeout_args (some (seconds, micros)) = seconds ∷ micros ∷ []

abbrev pub is_blocking : Option (ℕ × ℕ) → ℕ
is_blocking none = 1
is_blocking (some t) = 0

abbrev pub fd_word : Option ℕ → ℕ
fd_word none = 0
fd_word (some w) = w

abbrev pub put_word : ℕ → Option ℕ → Option ℕ
put_word w none = none
put_word w (some v) = some w

-- What the caller's pointers lead to.
pub record Sets : Type 0 where
  pub readsds : Option ℕ
  pub writesds : Option ℕ
  pub exceptsds : Option ℕ
  pub timeout : Option (ℕ × ℕ)

-- The result is an INT16.
unfoldable pub select : ℕ → Sets → List ℕ → Host → Result (ℕ × Sets × Host)
select nfds sets local h = do
  let t = raised sets.timeout
  r ←
      command Opcode.cmnd_select 44 Opcode.cmnd_select
        (λ c. uint32s_to_stream c (
          nfds
          ∷ 0x14
          ∷ 0x14
          ∷ 0x14
          ∷ 0x14
          ∷ is_blocking t
          ∷ fd_word sets.readsds
          ∷ fd_word sets.writesds
          ∷ fd_word sets.exceptsds
          ∷ timeout_args t))
        local h
  status ← stream_to_uint32 r.0 0
  rdfd ← stream_to_uint32 r.0 4
  wrfd ← stream_to_uint32 r.0 8
  exfd ← stream_to_uint32 r.0 12
  ok (
      if is_nonneg32 status
      then (
        u16 status,
        record {
          readsds = put_word rdfd sets.readsds;
          writesds = put_word wrfd sets.writesds;
          exceptsds = put_word exfd sets.exceptsds;
          timeout = t;
        },
        r.1,
      )
      else (0xffff, record sets { timeout = t }, with_errno status r.1))
