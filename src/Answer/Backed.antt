-- ===== src/Answer/Backed.antt =====
-- What a dialog rests on: the response by which the call was answered.
use sipgox.Prelude.{◌≡◌, sym, ◌∙◌, Option, none, some, List, [], ◌∷◌, ◌++◌}
use mathlib.Core.List.{append-nil}
use sipgox.Prelude.Int.{ℤ}
use sipgox.Ip.{Ip6Notation}
use sipgox.Outcome.{Outcome, ok, err, panic, diverges}
use sipgox.MediaSession.{MediaSession, local_sdp}
use sipgox.Ports.{Sockets}
use sipgox.Answer.{AnswerOptions, Answered, ServerDialog, Answering, Handler, then_do, ◌>>=◌}

-- One of the responses that were sent is as described.
pub data HasResponse (P : Answered → Type 0) : List Answered → Type 0 where
  here : {res : Answered} {rs : List Answered} → P res → HasResponse P (res ∷ rs)
  there : {res : Answered} {rs : List Answered} → HasResponse P rs → HasResponse P (res ∷ rs)

module _ {P : Answered → Type 0} where
  pub HasResponse-append :
      {rs : List Answered} (more : List Answered) → HasResponse P rs → HasResponse P (rs ++ more)
  HasResponse-append more (here p) = here p
  HasResponse-append more (there h) = there (HasResponse-append more h)

  pub HasResponse-last :
      (rs : List Answered) (res : Answered) → P res → HasResponse P (rs ++ res ∷ [])
  HasResponse-last [] res p = here p
  HasResponse-last (r ∷ rs) res p = there (HasResponse-last rs res p)

  pub HasResponse-map :
      {Q : Answered → Type 0} {rs : List Answered}
      → ((res : Answered) → P res → Q res)
      → HasResponse P rs
      → HasResponse Q rs
  HasResponse-map f (here p) = here (f _ p)
  HasResponse-map f (there h) = there (HasResponse-map f h)

module _ (v6 : Ip6Notation) (opts : AnswerOptions) where
  -- A 200 with a description of a session at the same local address.
  pub record Describes (m : MediaSession) (res : Answered) : Type 0 where
    pub status_is : res.status ≡ 200
    pub now : ℤ
    pub described : MediaSession
    pub sdp_is : res.sdp ≡ local_sdp v6 now described
    pub same_addr : described.laddr ≡ m.laddr

  -- Media are described by a 200 that was sent; a dialog without media was answered by the code of the
  -- options.
  abbrev pub Backing : Option MediaSession → List Answered → Type 0
  Backing none rs = HasResponse (λ res. res.status ≡ opts.answer_code) rs
  Backing (some m) rs = HasResponse (Describes m) rs

  pub Backing-append :
      (media : Option MediaSession) (rs more : List Answered)
      → Backing media rs
      → Backing media (rs ++ more)
  Backing-append none rs more h = HasResponse-append more h
  Backing-append (some m) rs more h = HasResponse-append more h

  -- The dialog that is held, and the one that is delivered, are answered.
  pub record IsBacked {n : Sockets} (s : Answering n) : Type 0 where
    pub held : (d : ServerDialog) → s.dialog ≡ some d → Backing d.media s.responses
    pub handed : (d : ServerDialog) → s.delivered ≡ some (some d) → Backing d.media s.responses

-- The dialogs are the same, and responses are only added.
pub record Extends {n : Sockets} (s s' : Answering n) : Type 0 where
  pub same_dialog : s'.dialog ≡ s.dialog
  pub same_delivered : s'.delivered ≡ s.delivered
  pub more : List Answered
  pub added : s'.responses ≡ s.responses ++ more

pub Extends-refl :
    {n : Sockets} {s s' : Answering n}
    → s'.dialog ≡ s.dialog
    → s'.delivered ≡ s.delivered
    → s'.responses ≡ s.responses
    → Extends s s'
Extends-refl a b c = record {
  same_dialog = a;
  same_delivered = b;
  more = [];
  added = c ∙ sym (append-nil _);
}

module _ {n : Sockets} (v6 : Ip6Notation) (opts : AnswerOptions) where
  pub Extends-IsBacked :
      {s s' : Answering n} → Extends s s' → IsBacked v6 opts s → IsBacked v6 opts s'
  Extends-IsBacked {s} e b = record {
    held = λ d h.
        rw e.added
          (Backing-append v6 opts d.media s.responses e.more (b.held d (sym e.same_dialog ∙ h)));
    handed = λ d h.
        rw e.added (
          Backing-append v6 opts d.media s.responses e.more
            (b.handed d (sym e.same_delivered ∙ h)));
  }

  -- A handler after which the dialogs are answered where they were before.
  abbrev pub Keeps : {A : Type 0} → Handler n A → Type 0
  Keeps m = (s : Answering n) → IsBacked v6 opts s → IsBacked v6 opts (m s).1

  pub then_do-IsBacked :
      {A B : Type 0} (f : A → Handler n B) (x : Outcome A × Answering n)
      → ((a : A) → Keeps (f a))
      → IsBacked v6 opts x.1
      → IsBacked v6 opts (then_do x f).1
  then_do-IsBacked f (ok a, s) k b = k a s b
  then_do-IsBacked f (err e, s) k b = b
  then_do-IsBacked f (panic, s) k b = b
  then_do-IsBacked f (diverges, s) k b = b

  -- A chain of handlers.
  pub Keeps-bind :
      {A B : Type 0} (m : Handler n A) (f : A → Handler n B)
      → Keeps m
      → ((a : A) → Keeps (f a))
      → Keeps (m >>= f)
  Keeps-bind m f k l s b = then_do-IsBacked f (m s) l (k s b)
