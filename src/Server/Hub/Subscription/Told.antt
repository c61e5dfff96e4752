-- ===== src/Server/Hub/Subscription/Told.antt =====
-- What a client reads of frames that were written one after the other, each under its own nonce.
use hush_go.Base.{
  ℕ, Bytes, List, [], ◌∷◌, ◌++◌, append_assoc, append-nil, length, All, ok, ◌≡◌, refl, ap, sym, ◌∙◌,
  Option,
}
use hush_go.Base.{All-append}
use hush_go.Session.Crypto.{Aead, AeadLaws, nonce_size}
use hush_go.Frame.Sealing.{IsKey}
use hush_go.Frame.Responses.{Response, read_response-wire}
use hush_go.Server.Tcp.Pipeline.{read_all, on_wire_all, IsSendable, response_wire}

-- A response with its number, behind its nonce.
abbrev Sent : Type 0
Sent = Bytes × (ℕ × Response)

abbrev IsSent : Sent → Type 0
IsSent (nonce, r) = (length nonce ≡ nonce_size) × IsSendable r

abbrev numbered : List Sent → List (ℕ × Response)
numbered [] = []
numbered ((nonce, r) ∷ fs) = r ∷ numbered fs

numbered-append : (fs gs : List Sent) → numbered (fs ++ gs) ≡ numbered fs ++ numbered gs
numbered-append [] gs = refl
numbered-append ((nonce, r) ∷ fs) gs = ap (λ rs. r ∷ rs) (numbered-append fs gs)

module _ (aead : Aead) (laws : AeadLaws aead) (key : Option Bytes) where
  abbrev frames_wire : List Sent → Bytes
  frames_wire [] = []
  frames_wire ((nonce, r) ∷ fs) = response_wire aead laws key nonce r ++ frames_wire fs

  frames_wire-append :
      (fs gs : List Sent) → frames_wire (fs ++ gs) ≡ frames_wire fs ++ frames_wire gs
  frames_wire-append [] gs = refl
  frames_wire-append ((nonce, r) ∷ fs) gs =
      ap (λ bytes. response_wire aead laws key nonce r ++ bytes) (frames_wire-append fs gs)
      ∙ sym (append_assoc (response_wire aead laws key nonce r) (frames_wire fs) (frames_wire gs))

  read_all-frames_wire :
      (fs : List Sent)
      → IsKey key
      → All IsSent fs
      → read_all aead key (length (numbered fs)) (frames_wire fs)
        ≡ ok (on_wire_all (numbered fs), [])
  read_all-frames_wire [] good h = refl
  read_all-frames_wire ((nonce, (seq, resp)) ∷ fs) good ((size, s), h) = rw (
    read_response-wire aead laws key nonce seq resp (frames_wire fs) good size s.0 s.1,
    read_all-frames_wire fs good h,
  )

  -- These responses were written, and nothing else.
  pub record IsTold (resps : List (ℕ × Response)) (written : Bytes) : Type 0 where
    pub frames : List Sent
    pub sent : All IsSent frames
    pub responses : numbered frames ≡ resps
    pub bytes : frames_wire frames ≡ written

  pub nothing-IsTold : IsTold [] []
  nothing-IsTold = record { frames = []; sent = tt; responses = refl; bytes = refl }

  pub IsTold-next :
      (resps : List (ℕ × Response)) (written nonce : Bytes) (r : ℕ × Response)
      → IsTold resps written
      → length nonce ≡ nonce_size
      → IsSendable r
      → IsTold (resps ++ (r ∷ [])) (written ++ response_wire aead laws key nonce r)
  IsTold-next resps written nonce r t size h = record {
    frames = t.frames ++ ((nonce, r) ∷ []);
    sent = All-append IsSent t.frames ((nonce, r) ∷ []) t.sent ((size, h), tt);
    responses = numbered-append t.frames ((nonce, r) ∷ []) ∙ rw t.responses refl;
    bytes =
        frames_wire-append t.frames ((nonce, r) ∷ [])
        ∙ (rw (t.bytes, append-nil (response_wire aead laws key nonce r)) refl);
  }

  pub read_all-IsTold :
      (resps : List (ℕ × Response)) (written : Bytes)
      → IsKey key
      → IsTold resps written
      → read_all aead key (length resps) written ≡ ok (on_wire_all resps, [])
  read_all-IsTold resps written good t =
      rw (← t.responses, ← t.bytes) (read_all-frames_wire t.frames good t.sent)
