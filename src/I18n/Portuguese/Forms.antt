-- ===== src/I18n/Portuguese/Forms.antt =====
-- web/lib/i18n/extra-dept.ts: the Portuguese texts of the set-up, the API page
-- and the banner.
use wgtemporary_email.Base.{String, [], ◌∷◌}
use wgtemporary_email.Base.Dict.{Dict}

abbrev pub pt_banner : Dict String
pt_banner =
    ("text", "Você está acessando via {host}. Recomenda-se usar o domínio oficial:")
    ∷ ("goto", "Ir")
    ∷ ("dismiss", "Não mostrar novamente")
    ∷ []

abbrev pub pt_setup : Dict String
pt_setup =
    ("setupTitle", "Configuração inicial")
    ∷ (
      "setupIntro",
      "Conclua a configuração antes do primeiro uso. Tudo pode ser alterado depois no painel de administração.",
    )
    ∷ ("setupKeySection", "Chave de instalação de uso único")
    ∷ (
      "setupKeyDesc",
      "O servidor a exibe na inicialização: docker compose logs api | grep 'Setup key'. Impede que terceiros assumam uma instância não inicializada.",
    )
    ∷ ("setupKeyPlaceholder", "Cole a chave do log do servidor")
    ∷ ("domainsSection", "Domínios de recebimento")
    ∷ (
      "domainsDesc",
      "Os domínios para os quais este serviço recebe e-mail (pelo menos um), ex.: example.com",
    )
    ∷ ("addDomain", "Adicionar domínio")
    ∷ ("hostnameSection", "Nome de host do servidor de e-mail")
    ∷ (
      "hostnameDesc",
      "O nome apontado pelos registros MX. O registro A dele no DNS deve apontar para este servidor",
    )
    ∷ ("tokenSection", "Token de administrador")
    ∷ ("tokenDesc", "Token para entrar no painel (/admin). Vazio = gerado automaticamente")
    ∷ ("tokenPlaceholder", "Vazio = gerado automaticamente")
    ∷ ("generate", "Gerar")
    ∷ ("optionalSection", "Configurações opcionais")
    ∷ ("optionalDesc", "Tudo pode ser alterado depois no painel")
    ∷ ("lifetimeLabel", "Validade do endereço (horas)")
    ∷ ("storageLabel", "Limite de armazenamento (MB, 0 = ilimitado)")
    ∷ ("allowCustom", "Permitir nomes de usuário personalizados")
    ∷ ("serverIpLabel", "IP público do servidor (para gerar as dicas de DNS)")
    ∷ ("serverIpPlaceholder", "ex.: 216.238.53.44")
    ∷ ("webHostnameLabel", "Domínio de acesso ao painel (opcional)")
    ∷ (
      "webHostnameHint",
      "Domínio oficial para acessar o painel web, ex.: mail.example.com. Vazio = usa o hostname de e-mail.",
    )
    ∷ ("webHostnamePlaceholder", "mail.example.com")
    ∷ ("saveBtn", "Salvar e concluir")
    ∷ ("saving", "Salvando...")
    ∷ ("needDomain", "Informe pelo menos um domínio")
    ∷ ("needHostname", "Informe o nome de host do servidor de e-mail")
    ∷ ("networkError", "Erro de rede, tente novamente")
    ∷ ("doneTitle", "Configuração concluída")
    ∷ ("doneDesc", "O serviço está pronto. Salve as informações abaixo e configure o DNS.")
    ∷ ("tokenLabel", "Token do painel (exibido apenas uma vez, guarde bem)")
    ∷ ("copied", "Copiado")
    ∷ ("copy", "Copiar")
    ∷ ("dnsLabel", "Registros DNS a adicionar")
    ∷ ("aRecord", "Registro A:")
    ∷ ("mxRecord", "Registro MX ({domain}):")
    ∷ (
      "ptrHint",
      "Peça também ao seu provedor de VPS para configurar o DNS reverso (PTR) de {ip} para {hostname}.",
    )
    ∷ ("yourServerIp", "o IP do seu servidor")
    ∷ ("openSite", "Abrir site do usuário")
    ∷ ("openAdmin", "Abrir painel de administração")
    ∷ (
      "backendUnreachable",
      "Não foi possível conectar ao backend. Verifique se o serviço está em execução.",
    )
    ∷ []

abbrev pub pt_api : Dict String
pt_api =
    ("apiTitle", "Documentação da API")
    ∷ (
      "apiDesc",
      "Referência REST completa do WGTemporaryEmail. Todos os endpoints somente leitura podem ser testados ao vivo com um clique.",
    )
    ∷ ("invalidJson", "JSON inválido")
    ∷ ("baseUrlLabel", "URL base")
    ∷ (
      "authUserNote",
      "API de usuário: o token de acesso é retornado ao criar um endereço (POST /api/v1/addresses) e usado no caminho da URL.",
    )
    ∷ (
      "authAdminNote",
      "API de administração: requer o token de administrador no cabeçalho: Authorization: Bearer <admin.token>.",
    )
    ∷ ("publicSection", "API de usuário (pública)")
    ∷ ("adminSection", "API de administração (requer token)")
    ∷ ("setupSection", "API de configuração")
    ∷ (
      "adminTokenPlaceholder",
      "Digite o token de administrador (opcional, para testar a API admin)",
    )
    ∷ ("runTest", "Executar teste")
    ∷ ("testing", "Testando...")
    ∷ ("copyResponse", "Copiar resposta")
    ∷ ("copied", "Copiado")
    ∷ ("response", "Resposta")
    ∷ ("params", "Parâmetros")
    ∷ ("example", "Exemplo (curl)")
    ∷ ("descDomains", "Lista os domínios disponíveis para criar endereços.")
    ∷ (
      "descCreateAddress",
      "Cria um endereço temporário. Corpo: username (opcional, 3-64), domain (opcional, deve estar configurado).",
    )
    ∷ (
      "descListEmails",
      "Lista os e-mails de um endereço. Query: page, per_page (máx. 100), unread_only, search.",
    )
    ∷ ("descGetEmail", "Detalhe completo do e-mail. Query: mark_read=false para mantê-lo não lido.")
    ∷ ("descDeleteEmail", "Exclui um e-mail do endereço.")
    ∷ ("descRawEmail", "Baixa a mensagem RFC 5322 original (.eml).")
    ∷ ("descAttachment", "Baixa um anexo do e-mail.")
    ∷ ("descAdminStats", "Estatísticas do sistema para o painel.")
    ∷ ("descAdminAddresses", "Lista todos os endereços. Query: page, per_page, search.")
    ∷ ("descAdminAddressDetail", "Obtém um endereço com seus e-mails.")
    ∷ ("descAdminDeleteAddress", "Exclui um endereço e todos os seus e-mails. Destrutivo.")
    ∷ ("descAdminEmails", "Lista todos os e-mails recebidos. Query: page, per_page, search.")
    ∷ ("descAdminEmailDetail", "Detalhe completo de um e-mail.")
    ∷ ("descAdminDeleteEmail", "Exclui um e-mail. Destrutivo.")
    ∷ ("descAdminDomains", "Lista os domínios configurados com estatísticas de uso.")
    ∷ ("descAdminAddDomain", "Adiciona um domínio (recarga a quente, o MX aplica em 15s).")
    ∷ ("descAdminRemoveDomain", "Remove um domínio. Destrutivo.")
    ∷ ("descAdminConfig", "Mostra a configuração atual (segredos mascarados).")
    ∷ ("descAdminUpdateConfig", "Atualiza parcialmente chaves permitidas (recarga a quente).")
    ∷ (
      "descAdminCleanup",
      "Executa agora a limpeza de endereços expirados e do limite de armazenamento. Destrutivo.",
    )
    ∷ ("descSetupStatus", "Se o assistente de configuração inicial foi concluído.")
    ∷ (
      "descHealth",
      "Verificação de atividade: informa se o serviço e o banco estão no ar (sem detalhes de configuração).",
    )
    ∷ (
      "descAddressInfo",
      "Retorna a caixa vinculada a este token (endereço, tipo, criação/expiração). Usado para entrar numa caixa permanente só com o token.",
    )
    ∷ (
      "descCreatePermanent",
      "Cria uma caixa permanente (público, sem autenticação, com limite de taxa). O endereço nunca expira e os e-mails ficam pelo período configurado. Retorna o token: guarde-o.",
    )
    ∷ (
      "descCreatePermanentApi",
      "Cria uma caixa permanente com a chave de integração (cabeçalho X-API-Key). Mesmo resultado da rota pública, mas autenticado para sistemas externos.",
    )
    ∷ (
      "descTlsStatus",
      "Status do certificado do host de e-mail e do painel: existência dos arquivos, validade e titular.",
    )
    ∷ (
      "descTlsIssue",
      "Pede ao sidecar certbot para emitir/renovar um certificado Let's Encrypt (HTTP-01). Requer domínios apontando para cá e porta 80 acessível.",
    )
    ∷ (
      "descApiKeyStatus",
      "Informa se há uma chave de integração configurada (a chave nunca é retornada).",
    )
    ∷ (
      "descAdminPermanentList",
      "Lista as caixas permanentes com número de e-mails, não lidos, armazenamento e último recebimento. Suporta busca, paginação e ordenação.",
    )
    ∷ (
      "descAdminPermanentStats",
      "Números agregados das caixas permanentes: totais, armazenamento, retenção e limite configurado.",
    )
    ∷ (
      "descAdminPermanentCreate",
      "Cria uma caixa permanente pelo painel. O token de acesso é retornado uma única vez: é a única forma de lê-la depois.",
    )
    ∷ (
      "descAdminPermanentPurge",
      "Exclui todos os e-mails de uma caixa permanente mantendo o endereço.",
    )
    ∷ (
      "descAdminPermanentRetention",
      "Executa agora a limpeza por retenção (e-mails mais antigos que o período configurado).",
    )
    ∷ (
      "descApiKeyRegenerate",
      "Gera uma nova chave de integração. A anterior deixa de funcionar imediatamente e a nova aparece só uma vez.",
    )
    ∷ ("descSetupComplete", "Grava a configuração inicial. Só funciona antes da inicialização.")
    ∷ ("chainTestNote", "Cria um novo endereço e depois lista seus e-mails.")
    ∷ ("destructiveNote", "Endpoints destrutivos são apenas documentados, sem teste de um clique.")
    ∷ ("testSuccess", "Sucesso")
    ∷ ("testFailed", "Falha na requisição")
    ∷ ("closeResponse", "Fechar")
    ∷ ("confirmDestructive", "Esta ação modificará ou excluirá dados. Continuar?")
    ∷ ("binaryResponse", "Resposta binária ({n} bytes), não pode ser exibida como texto.")
    ∷ ("fillParams", "Preencha os parâmetros acima e execute o teste.")
    ∷ []
