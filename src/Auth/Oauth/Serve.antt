-- ===== src/Auth/Oauth/Serve.antt =====
-- mcpauth/oauth.go: the dispatch of the requests that the facade answers.
use gooners.Base.{◌||◌, Option, none, some, if◌then◌else◌, ◌==◌, nat_eq, list_eq, text}
use gooners.Auth.{Platform}
use gooners.Auth.Oauth.{
  Settings, OauthState, Request, Outside, Reply, resource_metadata, server_metadata, jwks,
  supported_scopes, serve_metadata,
}
use gooners.Auth.Oauth.Authorize.{serve_authorize}
use gooners.Auth.Oauth.Token.{serve_token}

module _ (os : Platform) (o : Settings) where
  -- serve, with none where it leaves the request to the caller.
  unfoldable pub serve : Request → Outside → OauthState → OauthState × Option Reply
  unfolding serve_authorize serve_token
  serve r out s =
      if r.path == text "/.well-known/oauth-protected-resource"
      then (
        s,
        some (
            serve_metadata r
              (resource_metadata o.cfg.resource o.cfg.issuer (supported_scopes o) o.name)),
      )
      else if r.path == text "/.well-known/oauth-authorization-server"
          || r.path == text "/.well-known/openid-configuration"
      then (s, some (serve_metadata r (server_metadata o.cfg.issuer (supported_scopes o))))
      else if r.path == text "/jwks"
      then (s, some (serve_metadata r jwks))
      else if r.path == text "/authorize"
      then (let done = serve_authorize os o r out s in (done.0, some done.1))
      else if r.path == text "/token"
      then (let done = serve_token os o r out s in (done.0, some done.1))
      else (s, none)
