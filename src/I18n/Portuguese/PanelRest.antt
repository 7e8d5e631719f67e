-- ===== src/I18n/Portuguese/PanelRest.antt =====
-- web/lib/i18n/extra-dept.ts: the Portuguese texts of the panel, second half.
use wgtemporary_email.Base.{String, [], ◌∷◌}
use wgtemporary_email.Base.Dict.{Dict}

abbrev pub pt_admin_rest : Dict String
pt_admin_rest =
    (
      "deleteAddressConfirm",
      "Excluir este endereço? Todos os seus e-mails também serão excluídos. Não pode ser desfeito.",
    )
    ∷ ("domainsTitle", "Gerenciamento de domínios")
    ∷ ("dnsCol", "Verificação DNS")
    ∷ ("dnsCheck", "Verificar DNS")
    ∷ ("dnsChecking", "Verificando…")
    ∷ ("dnsOk", "MX aponta para {host} (pronto)")
    ∷ ("dnsMismatch", "MX não aponta para cá: {found} (esperado {expected})")
    ∷ ("dnsNone", "sem registro MX")
    ∷ ("dnsError", "Falha no DNS: {err}")
    ∷ ("dnsHint", "O e-mail só chega se o MX do domínio apontar para cá; verifique após adicionar.")
    ∷ ("addDomain", "Adicionar domínio")
    ∷ ("addDomainPlaceholder", "ex.: temp.example.com")
    ∷ ("add", "Adicionar")
    ∷ (
      "domainDnsHint",
      "Após adicionar, configure o registro MX do domínio apontando para este servidor; caso contrário, não haverá recebimento.",
    )
    ∷ ("configuredDomainsTitle", "Domínios configurados ({n})")
    ∷ ("domainCol", "Domínio")
    ∷ ("addressCountCol", "Endereços")
    ∷ ("noDomainsConfigured", "Nenhum domínio configurado")
    ∷ ("cannotRemoveLast", "Não é possível remover o último domínio")
    ∷ ("removeDomain", "Remover domínio")
    ∷ (
      "removeDomainConfirm",
      "Remover o domínio {domain}? Os e-mails existentes são mantidos, mas o MX deixará de aceitar novas mensagens para ele.",
    )
    ∷ ("domainAdded", "Domínio {domain} adicionado. Efetivo na API imediatamente e no MX em ~15s.")
    ∷ ("domainRemoved", "Domínio {domain} removido ({n} endereços afetados).")
    ∷ ("addFailed", "Falha ao adicionar. Tente novamente.")
    ∷ ("removeFailed", "Falha ao remover. Tente novamente.")
    ∷ ("configTitle", "Configuração do sistema")
    ∷ (
      "configHotReloadNote",
      "As alterações valem imediatamente ao salvar, sem reiniciar. Comentários do config.yaml são removidos ao reescrever.",
    )
    ∷ ("mailSection", "E-mail e endereços")
    ∷ ("mailSectionDesc", "Configurações tempmail / server")
    ∷ ("maxMsgSizeMb", "Tamanho máximo de mensagem (MB)")
    ∷ ("addressLifetime", "Validade do endereço (horas)")
    ∷ ("maxEmailsPerAddress", "Máx. de e-mails por endereço")
    ∷ ("maxStorageMb", "Limite de armazenamento (MB, 0 = ilimitado)")
    ∷ ("cleanupInterval", "Intervalo de limpeza (horas)")
    ∷ ("rateLimitSection", "Limites de requisições (por IP, por minuto)")
    ∷ (
      "rateLimitDesc",
      "0 desativa o limite. Vale imediatamente; os limites de criação são por IP, então vários usuários atrás de um NAT compartilham a cota.",
    )
    ∷ ("rlAddressCreate", "Criação de endereços / min")
    ∷ ("rlPermanentCreate", "Criação de caixas permanentes / min")
    ∷ ("rlApiCreate", "Criação via chave de API / min")
    ∷ ("rlSetup", "Assistente inicial / min")
    ∷ ("rlAdmin", "API de administração / min")
    ∷ ("rlEmailRead", "Leituras e downloads / min")
    ∷ ("minUsernameLength", "Tamanho mínimo do usuário")
    ∷ ("maxUsernameLength", "Tamanho máximo do usuário")
    ∷ (
      "storageCapHint",
      "0 = ilimitado. Ao ultrapassar, os e-mails mais antigos são excluídos primeiro.",
    )
    ∷ ("mailHostname", "Nome de host do servidor de e-mail")
    ∷ (
      "hostnameHint",
      "Reinicie o contêiner MX após alterar para que o banner SMTP use o novo nome.",
    )
    ∷ ("tokenSection", "Token de administrador")
    ∷ ("tokenSectionDesc", "Após alterar, entre novamente com o novo token")
    ∷ ("tokenPlaceholder", "Digite um novo token (vazio = sem alteração)")
    ∷ ("tokenHint", "Mínimo de 8 caracteres, 16+ recomendados")
    ∷ ("switchesSection", "Interruptores")
    ∷ ("docsEnabled", "Ativar documentação da API (/docs Swagger)")
    ∷ ("allowCustomUsernames", "Permitir nomes de usuário personalizados")
    ∷ ("checkDkim", "Validar DKIM")
    ∷ ("checkSpf", "Validar SPF")
    ∷ ("checkDmarc", "Validar DMARC")
    ∷ ("storeResults", "Armazenar resultados de validação")
    ∷ ("databaseSection", "Banco de dados")
    ∷ ("poolSize", "Tamanho do pool de conexões")
    ∷ ("maxOverflow", "Overflow máximo do pool")
    ∷ (
      "poolHint",
      "Nota: pool_size / max_overflow exigem reiniciar o contêiner API (o pool é criado na inicialização).",
    )
    ∷ ("corsSection", "Origens CORS permitidas")
    ∷ ("corsDesc", "Uma origem por linha, * permite todas")
    ∷ ("saveReload", "Salvar e recarregar")
    ∷ ("saving", "Salvando...")
    ∷ ("nothingToSave", "Nada para salvar")
    ∷ ("savedReloaded", "Configuração salva e recarregada a quente (sem reiniciar)")
    ∷ (
      "restartRequired",
      "Salvo. Algumas alterações (CORS, pool do banco, tamanho máximo de mensagem) passam a valer após reiniciar os contêineres.",
    )
    ∷ ("currentConfigTitle", "Configuração completa atual (segredos mascarados)")
    ∷ ("saveFailed", "Falha ao salvar. Tente novamente.")
    ∷ ("intMinError", "Deve ser um inteiro >= {n}")
    ∷ ("tokenUpdated", "Token atualizado. Entre novamente com o novo token.")
    ∷ ("apiKeyTitle", "Chave de API de integração")
    ∷ (
      "apiKeyDesc",
      "Usada para criar caixas permanentes via API (POST /api/v1/api/addresses com o cabeçalho X-API-Key)",
    )
    ∷ ("apiKeyStatusConfigured", "Configurada")
    ∷ ("apiKeyNotSet", "Não configurada")
    ∷ ("apiKeyRegenerate", "Regenerar chave")
    ∷ ("apiKeyNew", "Nova chave de API (exibida apenas uma vez, salve agora):")
    ∷ ("apiKeyCopy", "Copiar chave")
    ∷ (
      "apiKeyConfirm", "Regenerar a chave de API? A chave antiga deixa de funcionar imediatamente.",
    )
    ∷ ("tlsTitle", "Certificado TLS (Let's Encrypt)")
    ∷ ("tlsEnabledLabel", "Ativar TLS/STARTTLS")
    ∷ ("tlsStatusLabel", "Status")
    ∷ ("tlsCertIssued", "Certificado emitido")
    ∷ ("tlsCertNotIssued", "Nenhum certificado emitido")
    ∷ ("tlsExpires", "Expira: {date}")
    ∷ ("tlsIssuer", "Emissor: {issuer}")
    ∷ ("tlsEmailLabel", "E-mail de notificação")
    ∷ ("tlsEmailPlaceholder", "admin@example.com")
    ∷ ("tlsIssueBtn", "Emitir / renovar certificado")
    ∷ ("tlsIssuing", "Emitindo… (geralmente <1 min)")
    ∷ ("tlsIssueSubmitted", "Solicitação enviada…")
    ∷ ("tlsIssueSuccess", "Certificado emitido com sucesso. Agora você pode ativar o TLS.")
    ∷ ("tlsIssueFailed", "Falha na emissão: {msg}")
    ∷ ("tlsIssueBusy", "Já há uma emissão em andamento")
    ∷ (
      "tlsAutoRenewNote",
      "Os certificados são renovados automaticamente (30 dias antes do vencimento); o MX aplica renovações sem reiniciar.",
    )
    ∷ (
      "tlsHostnameNote",
      "O certificado é emitido para o hostname do servidor de e-mail ({hostname}). O registro A deve apontar para este servidor e a porta 80 deve ser acessível publicamente.",
    )
    ∷ ("tlsJobRunning", "Emissão em andamento…")
    ∷ ("tlsLastRenew", "Última verificação de renovação: {date}")
    ∷ ("webHostnameLabel", "Domínio de acesso ao painel")
    ∷ (
      "webHostnameHint",
      "Vazio = acesso ao painel pelo hostname de e-mail. O certificado HTTPS cobre os dois nomes.",
    )
    ∷ (
      "mxHostnameNote",
      "Este nome é usado para roteamento de e-mail (o registro MX aponta para ele). Não o use como endereço do painel - configure um domínio de acesso adequado abaixo.",
    )
    ∷ (
      "webHostnameEmptyNote",
      "Nenhum domínio de acesso ao painel definido. Recomenda-se acessar por um domínio adequado (ex.: mail.example.com) em vez do hostname MX.",
    )
    ∷ (
      "webHostnameUpdated",
      "Salvo. Lembre-se de adicionar o registro A do domínio e reemitir o certificado.",
    )
    ∷ ("allowIpAccessLabel", "Permitir acesso ao painel de usuário por IP / outros domínios")
    ∷ (
      "allowIpAccessHint",
      "Desativado: acessos por domínios não oficiais ou IP são redirecionados ao domínio oficial; o painel admin e a API continuam acessíveis de qualquer endereço para evitar bloqueio.",
    )
    ∷ ("httpsUrl", "Painel HTTPS: https://{host}")
    ∷ ("certCovers", "Certificado cobre: {domains}")
    ∷ ("cleanupTitle", "Limpeza de dados")
    ∷ ("cleanupCardTitle", "Limpeza manual de endereços expirados")
    ∷ (
      "cleanupDesc",
      "O sistema limpa automaticamente a cada {h} horas: endereços expirados e os e-mails mais antigos que excedem o limite de armazenamento ({m} MB, 0 = ilimitado). Você também pode executar agora.",
    )
    ∷ ("currentAddresses", "{total} endereços no total, {active} ativos.")
    ∷ ("runNow", "Limpar agora")
    ∷ ("cleaning", "Limpando...")
    ∷ ("cleanupDone", "Limpeza concluída ({time})")
    ∷ ("deletedAddresses", "Endereços expirados excluídos: {n}")
    ∷ ("deletedEmails", "E-mails excluídos pelo limite: {n}")
    ∷ ("storageChanged", "Armazenamento: {a} → {b}")
    ∷ ("cleanupFailed", "Falha na limpeza. Tente novamente.")
    ∷ (
      "cleanupConfirm",
      "Executar a limpeza de endereços expirados agora? Todos os endereços expirados e seus e-mails serão excluídos.",
    )
    ∷ (
      "autoCleanupRetention",
      "Caixas permanentes: e-mails com mais de {d} dias são excluídos automaticamente",
    )
    ∷ ("retentionDeletedEmails", "E-mails excluídos por retenção: {n}")
    ∷ ("autoCleanupTitle", "Limpeza automática")
    ∷ (
      "autoCleanupMail",
      "Dados de e-mail: endereços expirados (a cada {h}h) e e-mails mais antigos acima do limite ({m} MB)",
    )
    ∷ (
      "autoCleanupLogs",
      "Logs de contêineres: rotação automática por contêiner (10 MB × 3, máx. 30 MB)",
    )
    ∷ ("autoCleanupBuild", "Cache de build do Docker: limpeza semanal")
    ∷ ("autoCleanupApt", "Cache do apt: limpeza mensal")
    ∷ ("autoCleanupJournald", "Logs do sistema (journald): limite de 200 MB")
    ∷ []
