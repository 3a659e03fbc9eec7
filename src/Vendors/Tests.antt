-- ===== src/Vendors/Tests.antt =====
-- The address of a deployment on Azure, and of a server of the user's own.
use rtxag.Prelude.{◌≡◌, refl, some, [], ◌∷◌, get}
use rtxag.Error.{ok}
use rtxag.Addresses.{build_url}
use rtxag.Vendors.{build_azure_chat_url, ollama_vendor}

azure_address :
    build_azure_chat_url
      (("AZURE_OPENAI_RESOURCE_NAME", some "res") ∷ ("AZURE_OPENAI_DEPLOYMENT_ID", some "dep") ∷ [])
    ≡ "https://res.openai.azure.com/openai/deployments/dep/chat/completions?api-version=2023-05-15"
unfolding get
azure_address = refl

ollama_address :
    ollama_vendor.api_url (("OLLAMA_HOST", some "http://localhost:11434/") ∷ [])
    ≡ ok "http://localhost:11434/v1/chat/completions"
unfolding get build_url
ollama_address = refl
