-- ===== src/Provider/Setup.antt =====
-- `LlmClient.__init__` and `close` of app/services/llm_client.py: the HTTP client of the provider.
use ticket_triage.Base.{ℕ, ◌≡◌, refl, ◌↔◌, Bool, true, false, ◌==◌, exists, List, [], ◌∷◌, ◌++◌}
use ticket_triage.Text.{Text, codes, text_eq, same}

-- The clients' settings of app/config.py; a timeout is in milliseconds.
pub record ProviderSettings : Type 0 where
  pub llm_api_key : Text
  pub llm_base_url : Text
  pub llm_timeout_ms : ℕ

pub record HttpClient : Type 0 where
  pub base_url : Text
  pub headers : List (Text × Text)
  pub timeout_ms : ℕ
  pub connect_timeout_ms : ℕ
  pub is_closed : Bool

unfoldable pub provider_headers : Text → List (Text × Text)
provider_headers [] = (codes "Content-Type", codes "application/json") ∷ []
provider_headers (c ∷ key) =
    (codes "Content-Type", codes "application/json")
    ∷ (codes "Authorization", codes "Bearer " ++ (c ∷ key))
    ∷ []

unfoldable pub new_http_client : ProviderSettings → HttpClient
unfolding provider_headers
new_http_client s = record {
  base_url = elim s.llm_base_url [ [] ↦ codes "http://provider.invalid" | c ∷ url ↦ c ∷ url ];
  headers = provider_headers s.llm_api_key;
  timeout_ms = s.llm_timeout_ms;
  connect_timeout_ms = 5000;
  is_closed = false;
}

unfoldable pub close_client : HttpClient → HttpClient
close_client c = record c { is_closed = true }

-- A client without a key sends no credentials.
sends_credentials : Text → Bool
sends_credentials key =
    exists (λ (h : Text × Text). h.0 == codes "Authorization") (provider_headers key)

sends_credentials_lem : (key : Text) → (sends_credentials key ≡ false) ↔ (key ≡ [])
unfolding sends_credentials provider_headers same
sends_credentials_lem [] = (λ h. refl, λ h. refl)
sends_credentials_lem (c ∷ key) = (λ h. cc, λ h. cc)
