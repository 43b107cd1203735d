-- ===== src/Client/Socket.antt =====
-- A message leaves the connection of the client as it is
-- (engine/src/market_data/kraken_book_client.cpp).
use real_time_paper_trading.Base.{
  ℕ, ap, ◌∙◌, ◌≡◌, refl, inl, inr, Bool, not, ◌&&◌, Option, none, some, List, [], ◌∷◌, Bool-cases,
  ◌==◌, Text,
}
use real_time_paper_trading.Ticks.{Price}
use real_time_paper_trading.Book.{BookSide, bid, ask, PriceLevel}
use real_time_paper_trading.Client.{
  BookMessage, BookMessageType, snapshot, update, Client, Frame, message, other_message, malformed,
  same_text, handle_message, Written, finished, aborted, client_of, Writes,
}
use real_time_paper_trading.Client.Core.{
  Core, core, bumped_if, core_level, core_levels, core_cleared, core_both, ending, core_rebuilt,
  core_checksum, noted, core_settled, core_message, core_ending, ending-handle_message,
}

module _ (crc32 : Text → ℕ) where
  bumped_if-has_socket : (o : Option Price) (k : Core) → (bumped_if o k).has_socket ≡ k.has_socket
  bumped_if-has_socket none k = refl
  bumped_if-has_socket (some p) k = refl

  core_levels-has_socket :
      (s : BookSide) (k : Core) (ls : List PriceLevel)
      → (core_levels s k ls).has_socket ≡ k.has_socket
  core_levels-has_socket s k [] = refl
  core_levels-has_socket s k (l ∷ ls) =
      core_levels-has_socket s (core_level s k l) ls ∙ bumped_if-has_socket _ _

  core_cleared-has_socket :
      (t : BookMessageType) (k : Core) → (core_cleared t k).has_socket ≡ k.has_socket
  core_cleared-has_socket snapshot k = refl
  core_cleared-has_socket update k = refl

  core_rebuilt-has_socket : (w : Writes) (k : Core) → (core_rebuilt w k).1.has_socket ≡ k.has_socket
  core_rebuilt-has_socket w k = elim (Bool-cases (k.has_socket && not w.takes_unsubscribe)) [
    | inl y ↦ rw y refl
    | inr n ↦ rw n refl
  ]

  core_settled-has_socket :
      (w : Writes) (m : BookMessage) (k : Core)
      → (core_settled crc32 w m k).1.has_socket ≡ k.has_socket
  core_settled-has_socket w m k = elim (Bool-cases (core_checksum crc32 k == m.checksum)) [
    | inl e ↦ rw e refl
    | inr d ↦ rw d (core_rebuilt-has_socket w (noted crc32 k))
  ]

  core_message-has_socket :
      (w : Writes) (m : BookMessage) (k : Core)
      → (core_message crc32 w m k).1.has_socket ≡ k.has_socket
  core_message-has_socket w m k = elim (Bool-cases (same_text m.symbol k.symbol)) [
    | inr n ↦ rw n refl
    | inl y ↦ rw y (
        core_settled-has_socket w m (core_both m k)
        ∙ core_levels-has_socket ask _ m.asks
        ∙ core_levels-has_socket bid _ m.bids
        ∙ core_cleared-has_socket m.type k)
  ]

  core_ending-has_socket :
      (w : Writes) (f : Frame) (k : Core) → (core_ending crc32 w f k).1.has_socket ≡ k.has_socket
  core_ending-has_socket w (message m) k = core_message-has_socket w m k
  core_ending-has_socket w other_message k = refl
  core_ending-has_socket w malformed k = refl

  core-client_of : (o : Written) → core (client_of o) ≡ (ending o).1
  unfolding client_of
  core-client_of (finished c) = refl
  core-client_of (aborted c) = refl

  -- A message leaves the connection of the client as it is.
  pub has_socket-handle_message :
      (i j : ℕ) (w : Writes) (f : Frame) (c : Client)
      → (client_of (handle_message crc32 i j w f c)).has_socket ≡ c.has_socket
  has_socket-handle_message i j w f c =
      ap (λ (k : Core). k.has_socket)
        (core-client_of (handle_message crc32 i j w f c)
          ∙ ap (λ (p : Bool × Core). p.1) (ending-handle_message crc32 i j w f c))
      ∙ core_ending-has_socket w f (core c)
